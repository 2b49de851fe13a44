-- ===== src/Tests.antt =====
-- Concrete runs: every theorem of the list in Lib.antt applied to one input.
pub mod Fifos
pub mod Callers
pub mod Memories
pub mod Sessions
pub mod Disks
pub mod Stores
pub mod Ramdevices
pub mod Counters
pub mod Pipes
pub mod Sculls
