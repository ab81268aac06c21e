-- ===== src/Dispatch.antt =====
-- sim/tools/check_dispatch_trace.py: the classes of instructions, and the rules of traces of class `Rules`.
pub mod Classify
pub mod Operands
pub mod Occupancy
pub mod Moves
pub mod Rules
pub mod Retire
pub mod Stops
pub mod Recoveries
pub mod Pairs
pub mod Event
mod Inversion
pub mod Counts
pub mod Found
pub mod Retirements
pub mod Oldest
pub mod Untouched
pub mod Known
pub mod Accounts
pub mod Limits
pub mod Numbered
pub mod Serial
pub mod Alone
