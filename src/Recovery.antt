-- ===== src/Recovery.antt =====
-- sim/recovery/model.py: the recovery policy of the completion queue, and the draining of fetches.
pub mod Dict
pub mod State
pub mod Step
pub mod Check
pub mod Edge
pub mod Queue
pub mod Cutting
pub mod Slots
pub mod Tokens
pub mod Invariant
pub mod Phases
pub mod Owners
pub mod Ends
pub mod Allocation
pub mod Pigeonhole
pub mod Sound
pub mod Safety
pub mod Effects
pub mod Owning
pub mod Operand
pub mod Fetch
pub mod Stream
