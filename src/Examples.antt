-- ===== src/Examples.antt =====
-- The theorems at concrete inputs.
mod Integer
mod Recovery
mod Flags
mod Fpu
mod Powerpc
mod Dispatch
mod Bus
mod Perf
mod Rules
