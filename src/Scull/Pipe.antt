-- ===== src/Scull/Pipe.antt =====
-- code/examples/scull/pipe.c: a circular buffer between readers and writers. What a handler does
-- between `down` and `up` is one `Section`; a pointer into the buffer is its distance from the
-- buffer's start, and `end` is always `buffer + buffersize`.
pub mod Queue
pub mod Contents
pub mod Sections
pub mod Traffic
pub mod Handlers
pub mod Lifecycle
pub mod Leaves
pub mod Sleepers
use linux_drivers_study.Prelude.{
  ℕ, ◌+◌, ◌-◌, ◌%◌, ltb, ◌==◌, if◌then◌else◌, Bool, true, false, not, List, [], ◌∷◌, Option, none,
  some, min,
}
use linux_drivers_study.Prelude.Bytes.{Bytes, load, splice}
use linux_drivers_study.Prelude.Int.{ℤ, pos, negsuc, sub_ℕ, to_u64, ◌+ℤ◌}
use linux_drivers_study.Kernel.Errno.{eagain, efault, enomem, erestartsys}
use linux_drivers_study.Kernel.Uaccess.{Uaccess}
use linux_drivers_study.Kernel.Fasync.{Fasync}
use linux_drivers_study.Fifo.{Signals, quiet, Poll}

-- `buffer`: `none` is NULL, and a list has the length that was allocated. `buffersize` is what the
-- pointer arithmetic uses; that it is not negative is the caller's part. `rp` and `wp` are stale
-- while the buffer is NULL.
pub record Pipe : Type 0 where
  pub buffer : Option Bytes
  pub buffersize : ℕ
  pub rp : ℕ
  pub wp : ℕ
  pub nreaders : ℤ
  pub nwriters : ℤ
  pub async_queue : List ℕ

-- `fin`: the semaphore is given back and the call returns. `sleep`: it is given back and the caller
-- sleeps. `fault`: an access outside the buffer.
pub data Section (User : Type 0) : Type 0 where
  fin : (ret : ℤ) → Pipe → User → Signals → Section User
  sleep fault : Section User

-- The value that `while (spacefree(dev) == 0)` and `if (spacefree(dev))` test.
abbrev pub is_zero : ℤ → Bool
is_zero (pos n) = n == 0
is_zero (negsuc n) = false

-- `wp` is never past `end`, so the distance under `%` is not negative.
unfoldable pub spacefree : Pipe → ℤ
spacefree p =
    if p.rp == p.wp
    then sub_ℕ p.buffersize 1
    else sub_ℕ ((p.rp + p.buffersize - p.wp) % p.buffersize) 1

-- The bytes of the buffer; a NULL buffer has none.
abbrev pub memory : Pipe → Bytes
memory p = elim p.buffer [ none ↦ [] | some m ↦ m ]

-- if (p == dev->end) p = dev->buffer
abbrev pub wrapped : Pipe → ℕ → ℕ
wrapped p at_byte = if at_byte == p.buffersize then 0 else at_byte

module _ (U : Uaccess) (nonblock : Bool) (buf count : ℕ) where
  -- After the wait loop of `scull_p_read`.
  unfoldable pub read_ready : Pipe → U.User → Section U.User
  read_ready p user =
      let n = min count (if ltb p.rp p.wp then p.wp - p.rp else p.buffersize - p.rp) in
      elim (load (memory p) p.rp n) [
        | none ↦ fault
        | some bytes ↦
            let (left, user') = U.copy_to_user user buf bytes in
            if left == 0
            then fin (pos n) (record p { rp = wrapped p (p.rp + n) }) user'
                (record quiet { writers = true })
            else fin efault p user' quiet
      ]

  unfoldable pub read_section : Pipe → U.User → Section U.User
  read_section p user =
      if p.rp == p.wp
      then (if nonblock then fin eagain p user quiet else sleep)
      else read_ready p user

  -- After `scull_getwritespace` returned 0.
  unfoldable pub write_ready : Pipe → U.User → Section U.User
  write_ready p user =
      let most = min count (to_u64 (spacefree p)) in
      let n = min most (if ltb p.wp p.rp then p.rp - p.wp - 1 else p.buffersize - p.wp) in
      elim (load (memory p) p.wp n) [
        | none ↦ fault
        | some old ↦
            let (left, landed) = U.copy_from_user user buf old in
            let p' = record p { buffer = some (splice (memory p) p.wp landed) } in
            if left == 0
            then fin (pos n) (record p' { wp = wrapped p (p.wp + n) }) user
                (record { readers = true; writers = false; sigio = p.async_queue })
            else fin efault p' user quiet
      ]

  unfoldable pub write_section : Pipe → U.User → Section U.User
  write_section p user =
      if is_zero (spacefree p)
      then (if nonblock then fin eagain p user quiet else sleep)
      else write_ready p user

unfoldable pub poll : Pipe → Poll
poll p = record { in_norm = not (p.rp == p.wp); out_norm = not (is_zero (spacefree p)) }

-- nreaders++ and nreaders--, for fewer than 2 ^ 31 open files.
abbrev pub up_by : Bool → ℤ → ℤ
up_by b z = if b then z +ℤ pos 1 else z

abbrev pub down_by : Bool → ℤ → ℤ
down_by b z = if b then z +ℤ negsuc 0 else z

-- FMODE_READ and FMODE_WRITE of an open file.
pub record Mode : Type 0 where
  pub reads : Bool
  pub writes : Bool

-- `interrupted`: down_interruptible was. `size` is `scull_p_buffer`, and `block` what kmalloc gives
-- for it if it is called. nonseekable_open returns 0.
unfoldable pub open_pipe :
    (interrupted : Bool) (size : ℕ) (block : Option Bytes) → Mode → Pipe → ℤ × Pipe
open_pipe interrupted size block mode p =
    let buffer : Option Bytes = elim p.buffer [ none ↦ block | some m ↦ some m ] in
    let opened = record p {
      buffer = buffer;
      buffersize = size;
      rp = 0;
      wp = 0;
      nreaders = up_by mode.reads p.nreaders;
      nwriters = up_by mode.writes p.nwriters;
    } in
    if interrupted
    then (erestartsys, p)
    else elim buffer [ none ↦ (enomem, p) | some m ↦ (pos 0, opened) ]

module _ (K : Fasync) (filp : ℕ) where
  unfoldable pub fasync : ℤ → Bool → Pipe → ℤ × Pipe
  fasync fd mode p =
      let (ret, queue) = K.helper fd filp mode p.async_queue in
      (ret, record p { async_queue = queue })

  -- kfree of a NULL buffer does nothing.
  unfoldable pub release : Mode → Pipe → ℤ × Pipe
  release mode p =
      let q = (fasync (negsuc 0) false p).1 in
      let readers = down_by mode.reads q.nreaders in
      let writers = down_by mode.writes q.nwriters in
      let left = record q { nreaders = readers; nwriters = writers } in
      (pos 0, if is_zero (readers +ℤ writers) then record left { buffer = none } else left)

-- A device as the memset of `scull_p_init` leaves it.
abbrev pub fresh : Pipe
fresh = record {
  buffer = none;
  buffersize = 0;
  rp = 0;
  wp = 0;
  nreaders = pos 0;
  nwriters = pos 0;
  async_queue = [];
}
