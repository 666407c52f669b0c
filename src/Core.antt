-- ===== src/Core.antt =====
-- emi_core.c.
pub mod LockFile
pub mod Race
pub mod Nodes
pub mod Cell
pub mod Slots
pub mod Dispatch
pub mod Receive
pub mod Start
