-- ===== src/Globalmem.antt =====
-- code/ch6/globalmem.c: one memory of 0x1000 bytes behind a character device, without a mutex.
-- The state holds what a handler can reach: the device's memory, the file position and the memory
-- of the caller. The field `held` is the mutex that the later drivers add; nothing here uses it.
pub mod Valid
pub mod Read
pub mod Write
pub mod Locked
pub mod Multi
pub mod Session
use linux_drivers_study.Prelude.{
  ℕ, ◌-◌, ◌+◌, ◌%◌, ◌^◌, ltb, leb, ◌==◌, if◌then◌else◌, Bool, none, some,
}
use linux_drivers_study.Prelude.{replicate, List}
use linux_drivers_study.Prelude.Bytes.{Bytes, load, splice}
use linux_drivers_study.Prelude.Int.{ℤ, pos, to_u64, add_s64}
use linux_drivers_study.Seek
use linux_drivers_study.Cdev
use linux_drivers_study.Cdev.{Answers, Loaded, Event, Opened}
use linux_drivers_study.Kernel.Errno.{efault, einval}
use linux_drivers_study.Kernel.Outcome.{Outcome, done, M, pure, ◌>>=◌, ◌>>◌, fault}
use linux_drivers_study.Kernel.Uaccess.{Uaccess}

-- GLOBALMEM_SIZE
abbrev pub globalmem_size : ℕ
globalmem_size = 0x1000

-- MEM_CLEAR
abbrev pub mem_clear : ℕ
mem_clear = 0x1

pub record Task (User : Type 0) : Type 0 where
  pub mem : Bytes
  pub held : Bool
  pub f_pos : ℤ
  pub user : User

-- memset(dev->mem, 0, GLOBALMEM_SIZE)
unfoldable pub clear : {User : Type 0} → M (Task User) (Unit {0})
clear st = done tt (record st { mem = replicate globalmem_size 0 })

unfoldable pub ioctl : {User : Type 0} → ℕ → M (Task User) ℤ
unfolding clear
ioctl cmd = if cmd == mem_clear then (do clear; pure (pos 0)) else pure einval

unfoldable pub llseek : {User : Type 0} → ℤ → ℕ → M (Task User) ℤ
llseek offset orig st =
    let s = Seek.llseek globalmem_size st.f_pos offset orig in
    done s.ret (record st { f_pos = s.f_pos })

-- `if (count > GLOBALMEM_SIZE - p) count = GLOBALMEM_SIZE - p`, after the cut to `unsigned int`.
unfoldable pub clip : ℕ → ℕ → ℕ
clip p size =
    let count = size % 2 ^ 32 in
    if ltb (globalmem_size - p) count then globalmem_size - p else count

-- `*ppos += count`, and the count as the result.
unfoldable pub advance : {User : Type 0} → ℕ → M (Task User) ℤ
advance count st = done (pos count) (record st { f_pos = add_s64 st.f_pos (pos count) })

module _ (U : Uaccess) where
  -- copy_to_user(buf, dev->mem + p, count)
  unfoldable pub copy_out : ℕ → ℕ → ℕ → M (Task U.User) ℕ
  copy_out buf p count st = elim (load st.mem p count) [
    | none ↦ fault
    | some bytes ↦
        let (left, user) = U.copy_to_user st.user buf bytes in done left (record st { user = user })
  ]

  -- copy_from_user(dev->mem + p, buf, count)
  unfoldable pub copy_in : ℕ → ℕ → ℕ → M (Task U.User) ℕ
  copy_in p buf count st = elim (load st.mem p count) [
    | none ↦ fault
    | some old ↦
        let (left, landed) = U.copy_from_user st.user buf old in
        done left (record st { mem = splice st.mem p landed })
  ]

  unfoldable pub read : ℕ → ℕ → M (Task U.User) ℤ
  unfolding advance
  read buf size st =
      let p = to_u64 st.f_pos in
      let count = clip p size in
      let transfer : M (Task U.User) ℤ = (do
        left ← copy_out buf p count
        if left == 0 then advance count else pure efault) in
      if leb globalmem_size p then done (pos 0) st else transfer st

  unfoldable pub write : ℕ → ℕ → M (Task U.User) ℤ
  unfolding advance
  write buf size st =
      let p = to_u64 st.f_pos in
      let count = clip p size in
      let transfer : M (Task U.User) ℤ = (do
        left ← copy_in p buf count
        if left == 0 then advance count else pure efault) in
      if leb globalmem_size p then done (pos 0) st else transfer st

pub open_device : Opened
open_device = Cdev.open_first

pub release : ℤ
release = Cdev.release

-- globalmem_init and globalmem_exit: one device.
pub init : ℕ → Answers → Loaded
init = Cdev.init 1

pub exit : ℕ → List Event
exit = Cdev.exit 1
