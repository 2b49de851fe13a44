-- ===== src/Tdlcd.antt =====
-- code/ch6/tdlcd.c: ten memories of 0x1000 bytes, each behind a mutex. The handlers below work on
-- the device that `tdlcd_open` finds; the state is that of the globalmem drivers.
pub mod Laws
pub mod Session
use linux_drivers_study.Prelude.{ℕ, List, ltb, ◌==◌, if◌then◌else◌}
use linux_drivers_study.Prelude.Int.{ℤ, pos, to_u64}
use linux_drivers_study.Kernel.Errno.{efault, einval}
use linux_drivers_study.Kernel.Outcome.{done, M, pure, ◌>>=◌, ◌>>◌}
use linux_drivers_study.Kernel.Uaccess.{Uaccess}
use linux_drivers_study.Cdev
use linux_drivers_study.Cdev.{Answers, Loaded, Event, Opened}
use linux_drivers_study.Globalmem
use linux_drivers_study.Globalmem.{Task, globalmem_size, mem_clear, clear, clip, advance}
use linux_drivers_study.Globalmem.{copy_out, copy_in}
use linux_drivers_study.Globalmem.Locked.{mutex_lock, mutex_unlock}

-- SIZE, the same 0x1000.
abbrev pub size : ℕ
size = globalmem_size

-- CTRL_CLC
abbrev pub ctrl_clc : ℕ
ctrl_clc = mem_clear

pub ioctl : {User : Type 0} → ℕ → M (Task User) ℤ
unfolding mutex_lock mutex_unlock clear
ioctl cmd =
    if cmd == ctrl_clc then (do mutex_lock; clear; mutex_unlock; pure (pos 0)) else pure einval

pub llseek : {User : Type 0} → ℤ → ℕ → M (Task User) ℤ
llseek = Globalmem.llseek

module _ (U : Uaccess) where
  -- The test of the position stands before the lock.
  pub read : ℕ → ℕ → M (Task U.User) ℤ
  unfolding advance mutex_lock mutex_unlock
  read buf count st =
      let p = to_u64 st.f_pos in
      let n = clip p count in
      let transfer : M (Task U.User) ℤ = (do
        mutex_lock
        left ← copy_out U buf p n
        ret ← (if left == 0 then advance n else pure efault)
        mutex_unlock
        pure ret) in
      if ltb size p then done (pos 0) st else transfer st

  -- The test of the position stands after the lock, and its `return 0` does not unlock.
  pub write : ℕ → ℕ → M (Task U.User) ℤ
  unfolding advance mutex_lock mutex_unlock
  write buf count st =
      let p = to_u64 st.f_pos in
      let n = clip p count in
      let transfer : M (Task U.User) ℤ = (do
        left ← copy_in U p buf n
        ret ← (if left == 0 then advance n else pure efault)
        mutex_unlock
        pure ret) in
      (do mutex_lock; if ltb size p then pure (pos 0) else transfer) st

-- container_of(inode->i_cdev, struct tdlcd_dev, cdev)
pub open_device : ℕ → Opened
open_device = Cdev.open_minor

pub release : ℤ
release = Cdev.release

-- tdlcd_init and tdlcd_exit: ten devices, TDLCD_NUM.
pub init : ℕ → Answers → Loaded
init = Cdev.init 10

pub exit : ℕ → List Event
exit = Cdev.exit_twice 10
