-- ===== src/Tests/Atoms.antt =====
-- The checks of a body on concrete bodies.
use naome_memory.Policy.{poc_v1}
use naome_memory.Validation.Spec.{IsAtom}
use naome_memory.Validation.Sound.{validate_memory_atom_body-IsAtom}
use naome_memory.Tests.Samples.{toy, first, first_valid}

validate_memory_atom_body-IsAtom_example : IsAtom toy poc_v1 first
validate_memory_atom_body-IsAtom_example =
    validate_memory_atom_body-IsAtom toy poc_v1 first first_valid
