-- ===== src/Tests.antt =====
-- Runs of the modelled code on concrete inputs.
mod Samples
mod Atoms
mod Retrievals
mod Numbers
mod Retirements
mod Plans
mod Seals
mod Receipts
mod Texts
