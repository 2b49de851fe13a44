-- ===== src/Fifo.antt =====
-- code/globalfifo/ch9/globalfifo.c: a FIFO of 0x1000 bytes with blocking reads and writes. What a
-- handler does between `mutex_lock` and `mutex_unlock` is one `Section`; the handler runs a section,
-- sleeps while there is nothing to do, and runs it again on the state that it finds then.
pub mod Sections
pub mod Readiness
pub mod Returns
pub mod Handlers
pub mod System
pub mod Mutex
pub mod Notify
use linux_drivers_study.Prelude.{
  ℕ, ◌+◌, ◌-◌, ◌%◌, ◌^◌, ltb, leb, length, ◌==◌, if◌then◌else◌, Bool, true, false, not, List, [],
  ◌∷◌, none, some, replicate,
}
use linux_drivers_study.Prelude.Bytes.{Bytes, load, splice}
use linux_drivers_study.Prelude.Int.{ℤ, pos, negsuc}
use linux_drivers_study.Kernel.Errno.{eagain, efault, einval, erestartsys}
use linux_drivers_study.Kernel.Uaccess.{Uaccess}
use linux_drivers_study.Kernel.Fasync.{Fasync}
use linux_drivers_study.Cdev
use linux_drivers_study.Cdev.{Answers, Loaded, Event, Opened}

-- GLOBALFIFO_SIZE
abbrev pub globalfifo_size : ℕ
globalfifo_size = 0x1000

-- FIFO_CLEAR
abbrev pub fifo_clear : ℕ
fifo_clear = 0x1

-- `current_len` is an unsigned int. `async_queue`: the open files that asked for SIGIO.
pub record Fifo : Type 0 where
  pub current_len : ℕ
  pub mem : Bytes
  pub async_queue : List ℕ

-- wake_up_interruptible(&dev->r_wait), wake_up_interruptible(&dev->w_wait), the files that kill_fasync
-- signals.
pub record Signals : Type 0 where
  pub readers : Bool
  pub writers : Bool
  pub sigio : List ℕ

abbrev pub quiet : Signals
quiet = record { readers = false; writers = false; sigio = [] }

-- `fin`: the mutex is released and the call returns. `sleep`: the mutex is released and the caller
-- sleeps. `fault`: an access outside the memory.
pub data Section (User : Type 0) : Type 0 where
  fin : (ret : ℤ) → Fifo → User → Signals → Section User
  sleep fault : Section User

-- Subtraction and addition of `unsigned int`.
abbrev pub sub_u32 : ℕ → ℕ → ℕ
sub_u32 a b = (a + 2 ^ 32 - b) % 2 ^ 32

abbrev pub add_u32 : ℕ → ℕ → ℕ
add_u32 a b = (a + b) % 2 ^ 32

-- The branch for FIFO_CLEAR. It wakes nobody.
unfoldable pub clear : Fifo → Fifo
clear f = record f { current_len = 0; mem = replicate globalfifo_size 0 }

pub record Ioctl : Type 0 where
  pub ret : ℤ
  pub fifo : Fifo

unfoldable pub ioctl : ℕ → Fifo → Ioctl
ioctl cmd f =
    if cmd == fifo_clear
    then record { ret = pos 0; fifo = clear f }
    else record { ret = einval; fifo = f }

-- POLLIN | POLLRDNORM and POLLOUT | POLLWRNORM.
pub record Poll : Type 0 where
  pub in_norm : Bool
  pub out_norm : Bool

unfoldable pub poll : Fifo → Poll
poll f = record {
  in_norm = not (f.current_len == 0);
  out_norm = not (f.current_len == globalfifo_size);
}

-- memcpy(mem, mem + n, length rest), where `rest` is what stands at mem + n. The ranges overlap if `rest` is
-- longer than `n`.
unfoldable pub move_front : Uaccess → Bytes → ℕ → Bytes → Bytes
move_front U mem n rest =
    splice mem 0 (if leb (length rest) n then rest else U.overlapped mem 0 n (length rest))

module _ (U : Uaccess) (nonblock : Bool) (buf count : ℕ) where
  -- After the wait loop of `globalfifo_read`.
  unfoldable pub read_ready : Fifo → U.User → Section U.User
  read_ready f user =
      let n = if ltb f.current_len count then f.current_len else count in
      elim (load f.mem 0 n) [
        | none ↦ fault
        | some bytes ↦
            let (left, user') = U.copy_to_user user buf bytes in
            elim (load f.mem n (sub_u32 f.current_len n)) [
              | none ↦ if left == 0 then fault else fin efault f user' quiet
              | some rest ↦
                  if left == 0
                  then fin (pos n)
                      (record f {
                        current_len = sub_u32 f.current_len n;
                        mem = move_front U f.mem n rest;
                      })
                      user' (record quiet { writers = true })
                  else fin efault f user' quiet
            ]
      ]

  unfoldable pub read_section : Fifo → U.User → Section U.User
  read_section f user =
      if f.current_len == 0
      then (if nonblock then fin eagain f user quiet else sleep)
      else read_ready f user

  -- After the wait loop of `globalfifo_write`.
  unfoldable pub write_ready : Fifo → U.User → Section U.User
  write_ready f user =
      let room = sub_u32 globalfifo_size f.current_len in
      let n = if ltb room count then room else count in
      elim (load f.mem f.current_len n) [
        | none ↦ fault
        | some old ↦
            let (left, landed) = U.copy_from_user user buf old in
            let mem = splice f.mem f.current_len landed in
            if left == 0
            then fin (pos n) (record f { current_len = add_u32 f.current_len n; mem = mem }) user
                (record { readers = true; writers = false; sigio = f.async_queue })
            else fin efault (record f { mem = mem }) user quiet
      ]

  unfoldable pub write_section : Fifo → U.User → Section U.User
  write_section f user =
      if f.current_len == globalfifo_size
      then (if nonblock then fin eagain f user quiet else sleep)
      else write_ready f user

-- `open` stores the only device in the file.
pub open_device : Opened
open_device = Cdev.open_first

module _ (K : Fasync) (filp : ℕ) where
  -- Without the mutex: the kernel guards the list by a lock of its own.
  unfoldable pub fasync : ℤ → Bool → Fifo → ℤ × Fifo
  fasync fd mode f =
      let (ret, queue) = K.helper fd filp mode f.async_queue in
      (ret, record f { async_queue = queue })

  -- globalfifo_fasync(-1, filp, 0), whose result is dropped.
  unfoldable pub release : Fifo → ℤ × Fifo
  release f = (pos 0, (fasync (negsuc 0) false f).1)

-- globalfifo_init and globalfifo_exit: one device.
pub init : ℕ → Answers → Loaded
init = Cdev.init 1

pub exit : ℕ → List Event
exit = Cdev.exit 1
