-- ===== src/Flags.antt =====
-- sim/tools/flag_state.py: masked commits to CR, XER and the registers, and the single owner of the flags.
pub mod State
pub mod Prepare
pub mod Owner
pub mod Errors
pub mod Commit
pub mod Sticky
pub mod Validated
