-- ===== src/Scull.antt =====
-- code/examples/scull: the character drivers kept in memory, scull with its quantum sets (main.c), the
-- pipe (pipe.c) and the devices with access control (access.c).
pub mod Pipe
pub mod Device
pub mod Trim
pub mod Ioctl
pub mod Access
pub mod Module
