-- ===== src/Nvm.antt =====
-- code/NVMSIM: a simulated non-volatile memory as a block device: the reserved memory and its allocator,
-- the copy routine, the requests, and the module that makes the devices.
pub mod Highmem
pub mod Copy
pub mod Request
pub mod Module
