-- ===== src/Integer.antt =====
-- The reference models of the integer instruction families, sim/tools/*_family.py: each file has an
-- `evaluate` for the result and its flags, and an `encode` for the instruction word.
pub mod Word
pub mod Add
pub mod Shift
pub mod Rotate
pub mod Compare
pub mod Logical
