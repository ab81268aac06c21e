-- ===== src/Fpu.antt =====
-- sim/fpu/reference.py: IEEE binary32 and binary64 in exact integers.
pub mod Format
pub mod Round
pub mod Calculate
pub mod Rounding
pub mod Length
pub mod Encoding
pub mod Powerpc
pub mod Arithmetic
pub mod Agreement
pub mod Refinement
pub mod Reports
