-- ===== src/Base/Word.antt =====
-- Arithmetic of the machine words: `u64`, and `usize` of the same width.
use Prim.Native.Nat.{ℕ, ◌+◌, ◌-◌, ◌*◌, ◌/◌, ◌%◌, ◌^◌, ◌≤◌, ◌<◌, min}
use mathlib.Core.Option.{Option, none, some}
use native.Mathlib.Omega.{arith}
use native.Mathlib.Nat.{div-add-mod', mod-lt, div-le_of_le-mul}
use naome_memory.Base.Tests.{ltb, leb, ◌==◌, if◌then◌else◌}

abbrev pub u64_mod : ℕ
u64_mod = 2 ^ 64

abbrev pub u64_max : ℕ
u64_max = u64_mod - 1

abbrev pub u128_max : ℕ
u128_max = 2 ^ 128 - 1

abbrev pub checked_add : ℕ → ℕ → Option ℕ
checked_add a b = if ltb (a + b) u64_mod then some (a + b) else none

abbrev pub checked_mul : ℕ → ℕ → Option ℕ
checked_mul a b = if ltb (a * b) u64_mod then some (a * b) else none

abbrev pub checked_sub : ℕ → ℕ → Option ℕ
checked_sub a b = if leb b a then some (a - b) else none

abbrev pub saturating_add : ℕ → ℕ → ℕ
saturating_add a b = min (a + b) u64_max

abbrev pub saturating_mul : ℕ → ℕ → ℕ
saturating_mul a b = min (a * b) u64_max

-- `a.div_ceil(b)`
abbrev pub div_ceil : ℕ → ℕ → ℕ
div_ceil a b = if a % b == 0 then a / b else a / b + 1

-- A quotient is the floor.
pub div_floor : (x d : ℕ) → 0 < d → (x / d * d ≤ x) × (x < (x / d + 1) * d)
div_floor x d pos = grind (arith, div-add-mod' x d, mod-lt x pos)

-- A quotient of at most `k * d` is at most `k`.
pub div-le : (x d k : ℕ) → x ≤ d * k → x / d ≤ k
div-le x d k h = div-le_of_le-mul d h
