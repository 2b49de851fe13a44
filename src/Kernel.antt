-- ===== src/Kernel.antt =====
-- What the drivers take from the kernel: error numbers, the ways a handler ends, copies to and from
-- user memory, and the calls that acquire and release resources. The kernel's own code is a
-- parameter throughout: its answers are arguments.
pub mod Errno
pub mod Outcome
pub mod Uaccess
pub mod Fasync
