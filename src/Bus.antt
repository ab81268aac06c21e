-- ===== src/Bus.antt =====
-- sim/tools/bus_decode.py: the transfer type codes of the bus.
pub mod Patterns
pub mod Expansion
pub mod Table
pub mod Cover
