-- ===== src/Lib.antt =====
-- The drivers of this repository: character devices, a FIFO with blocking calls, disks in memory and
-- a ram device over reserved memory.
--
-- The parts, and the files that model them:
-- - Prelude, Kernel: byte arrays with the accesses that leave them, signed 64-bit values, error numbers,
--   the outcome of a handler (done, blocked on a mutex, misuse of a mutex, an access out of bounds), and
--   the record Uaccess of copy_to_user and copy_from_user with the laws IsLawful that the kernel documents
--   for them. Uaccess also has what memcpy does where its ranges overlap, which nothing documents; CopiesUp
--   is the hypothesis that it moves the bytes upwards. Uaccess.flat is one process of which they hold.
-- - Globalmem: code/ch6/globalmem.c. The state is a Task: the memory `mem`, the position `f_pos` and the
--   caller's memory; globalmem_ioctl, _llseek, _read and _write are ioctl, llseek, read and write.
--   Globalmem.Locked is code/ch7/globalmem.c, whose mutex is the field `held`, and Globalmem.Multi is
--   code/ch6/multi_globalmem.c, an array of memories with the open file's `private_data`.
--   Globalmem.Session is the interface of such a driver to the calls on many open files;
--   Globalmem.Session.Drivers and Tdlcd.Session fill it.
-- - Tdlcd: code/ch6/tdlcd.c, on the same state. Seek: the llseek that these files share.
-- - Cdev: the init that the character drivers share, up to the number of devices, and their exits, of which
--   those of tdlcd.c and tdlcd_fifo.c delete one cdev more. The kernel's
--   answers are arguments (Answers) and each acquisition and release is an Event.
-- - Fifo: code/globalfifo/ch9/globalfifo.c. What globalfifo_read and globalfifo_write do while they hold
--   the mutex is read_section and write_section; Fifo.Handlers repeats a section over a list of wake-ups,
--   and Fifo.System is a step relation for any number of callers whose steps are whole locked sections.
--   Fifo.Mutex is a finer one, in which taking and giving back the mutex, marking oneself, falling asleep,
--   waking, running again and polling are steps of their own; Fifo.Mutex.Refines relates the two. Both take the
--   sections of a driver. Fifo.Notify has globalfifo_fasync and _release among the other calls, over
--   Kernel.Fasync, the interface of fasync_helper with its laws.
-- - Globalfifo.Ch8 and Globalfifo.Ch12 are the other two versions of globalfifo, with Globalfifo.Platform
--   for code/globalfifo/ch12/globalfifo-dev.c. TdlcdFifo is code/tdlcd/tdlcd_fifo.c, and
--   TdlcdFifo.Callers the finer system with its sections.
-- - Block: what the block layer relies on, a record BlockDriver with its laws and the array of bytes that a
--   lawful driver implements; VmemDisk.Store and Nvm.Request.Store fill it.
-- - VmemDisk: code/vmem_disk/vmem_disk.c. vmem_disk_transfer, _xfer_bio, _request, _make_request and
--   _getgeo are transfer, xfer_bio, request, make_request and getgeo; VmemDisk.Module has setup_device,
--   init and exit, and VmemDisk.Queue the request queue against an array of bytes. Tdlbd: code/tdlbd/tdlbd.c.
-- - Nvm: code/NVMSIM. Nvm.Highmem is hmalloc, hfree and the mapping of ramdevice.c and ramdevice.h,
--   Nvm.Copy is mem.c, Nvm.Request is nvm_make_request and what it calls, and Nvm.Module is nvm_alloc,
--   nvm_free, nvm_init and nvm_exit.
-- - BitMap: code/NVMSIM/bit_map.c and bit_map.h; SET_BITMAP, BOOL_ONE and bitCount are set_bitmap, bool_one
--   and bit_count. Second: code/second/second.c, whose timer handler runs as the ticks go by.
--   BitMap.Program is the program in bit_map.c, Second.Program the loop of code/second/second_test.c, and
--   Aior code/globalfifo/ch9/aior.c.
-- - Scull: code/examples/scull. Scull.Device is the memory of main.c: scull_follow, _read and _write are
--   follow, read and write, which call read_section and write_section with the semaphore; `seen` is the
--   device when they take quantum and qset from it. Scull.Device.Shape, Follow, Touch, Write and Read
--   prove what a call does to the chain of quantum sets, Locate where a position is in it, and Session
--   what sequences of calls read back. Scull.Trim has scull_trim, _open, _release and _llseek, Scull.Ioctl
--   scull_ioctl with the settings. Scull.Pipe is pipe.c: scull_p_open, _release, _read, _write, _poll and
--   _fasync and spacefree, with the wait loops in Scull.Pipe.Handlers; a pointer into the circular buffer
--   is an offset. Scull.Pipe.Sleepers has any number of readers and writers, each wake-up being a step after its
--   section. Scull.Access is access.c; s_, u_, w_ and c_ are the scullsingle, sculluid, scullwuid and
--   scullpriv devices. kmalloc is an argument, and so is what an allocated block holds.
--   Scull.Module is the init and cleanup of the three files together.
-- - Sbull: code/examples/sbull/sbull.c, whose transfers are those of vmem_disk: sbull_open, _release,
--   _invalidate and _revalidate are open_device, release, invalidate and revalidate, and the clock is
--   tick. Sbull.Idle relates them to a medium that is erased; Sbull.Clusters relates sbull_full_request to
--   vmem_disk_request, and Sbull.Module has setup_device, sbull_init and sbull_exit.
-- - Tests: each result at a concrete input.
--
-- The drivers of one kind share a state type, so that one can be compared with another: Globalmem.Task for
-- the memories, Fifo.Fifo and Fifo.Section for the FIFOs, VmemDisk.Disk for the disks.
--
-- Machine integers are natural numbers with the wrap-around written out, for 32-bit `unsigned int`, 64-bit
-- `unsigned long` and `sector_t`, and signed 64-bit `loff_t`. No definition takes fuel: the wait loop runs
-- over the list of wake-ups that it is given, and the other loops over the segments, requests, devices or
-- ticks that they are given, so each ends with those.
--
-- Not modelled: messages (printk), the kernel and its scheduler, of which the code's calls are arguments,
-- interfaces or steps, and with them the links of the wait queues, on which each operation is taken to be
-- atomic, and of the list behind fasync;
-- the files in /proc of code/examples/scull, which only print, and the other projects of code/examples; code/nvm-ref and code/NVMSIM/test, which are copies of other projects; the programs that
-- only print what poll, epoll, select or a signal tells them; code/asm-arm, code/param and code/export, which
-- have no state; of bit_map.c ilog2, which returns a constant, and CLEAR_BIT_BITMAP, which does not compile.
pub mod Prelude
pub mod Kernel
pub mod Seek
pub mod Cdev
pub mod Globalmem
pub mod Tdlcd
pub mod Fifo
pub mod Globalfifo
pub mod TdlcdFifo
pub mod Block
pub mod VmemDisk
pub mod Tdlbd
pub mod Nvm
pub mod BitMap
pub mod Second
pub mod Aior
pub mod Scull
pub mod Sbull
pub mod Tests
