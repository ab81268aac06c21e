-- ===== src/Perf.antt =====
-- sim/tools/perf_model_603e.py: the cycle model of an MPC603e.
pub mod Insn
pub mod Fields
pub mod Extended
pub mod Decode
pub mod Model
pub mod Memory
pub mod Search
pub mod Slots
pub mod Fetch
pub mod Branch
pub mod Execute
pub mod Schedule
pub mod Order
pub mod Keeps
pub mod Units
pub mod Keeping
pub mod Ordered
pub mod Progress
pub mod Fetching
pub mod Total
pub mod Shape
pub mod Decoded
pub mod Words
pub mod Window
pub mod Bytes
