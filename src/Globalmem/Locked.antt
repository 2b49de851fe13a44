-- ===== src/Globalmem/Locked.antt =====
-- code/ch7/globalmem.c: the driver of code/ch6/globalmem.c with a mutex. `write` and `ioctl` take
-- it; `read` only releases it.
use linux_drivers_study.Prelude.{
  ℕ, ◌≤◌, ◌<◌, ◌≡◌, true, false, leb, ◌==◌, if◌then◌else◌, arith, length, refl, List, ◌+◌,
}
use linux_drivers_study.Prelude.Bytes.{slice}
use linux_drivers_study.Prelude.Int.{ℤ, pos, to_u64}
use linux_drivers_study.Kernel.Errno.{efault, einval}
use linux_drivers_study.Kernel.Outcome.{done, blocked, misuse, M, pure, ◌>>=◌, ◌>>◌}
use linux_drivers_study.Kernel.Uaccess.{Uaccess}
use linux_drivers_study.Cdev
use linux_drivers_study.Cdev.{Answers, Loaded, Event, Opened}
use linux_drivers_study.Globalmem
use linux_drivers_study.Globalmem.{
  Task, globalmem_size, mem_clear, clear, clip, advance, copy_out, copy_in,
}
use linux_drivers_study.Globalmem.Valid.{moved, clip_lem, to_u64-pos, add_s64-pos}
use linux_drivers_study.Globalmem.Read.{copy_out_lem}
use linux_drivers_study.Globalmem.Write.{copy_in_lem}

-- mutex_lock, from a task that is not in the driver's critical section.
unfoldable pub mutex_lock : {User : Type 0} → M (Task User) (Unit {0})
mutex_lock st = elim st.held [ true ↦ blocked | false ↦ done tt (record st { held = true }) ]

unfoldable pub mutex_unlock : {User : Type 0} → M (Task User) (Unit {0})
mutex_unlock st = elim st.held [ true ↦ done tt (record st { held = false }) | false ↦ misuse ]

pub ioctl : {User : Type 0} → ℕ → M (Task User) ℤ
unfolding mutex_lock mutex_unlock clear
ioctl cmd =
    if cmd == mem_clear then (do mutex_lock; clear; mutex_unlock; pure (pos 0)) else pure einval

pub llseek : {User : Type 0} → ℤ → ℕ → M (Task User) ℤ
llseek = Globalmem.llseek

module _ (U : Uaccess) where
  pub read : ℕ → ℕ → M (Task U.User) ℤ
  unfolding advance mutex_unlock
  read buf size st =
      let p = to_u64 st.f_pos in
      let count = clip p size in
      let transfer : M (Task U.User) ℤ = (do
        left ← copy_out U buf p count
        ret ← (if left == 0 then advance count else pure efault)
        mutex_unlock
        pure ret) in
      if leb globalmem_size p then done (pos 0) st else transfer st

  pub write : ℕ → ℕ → M (Task U.User) ℤ
  unfolding advance mutex_lock mutex_unlock
  write buf size st =
      let p = to_u64 st.f_pos in
      let count = clip p size in
      let transfer : M (Task U.User) ℤ = (do
        mutex_lock
        left ← copy_in U p buf count
        ret ← (if left == 0 then advance count else pure efault)
        mutex_unlock
        pure ret) in
      if leb globalmem_size p then done (pos 0) st else transfer st

  -- With the mutex free, `write` does what the driver without a mutex does, on every branch: it ends with
  -- the mutex free, -EFAULT included.
  pub write-eq-unlocked :
      (buf size p : ℕ) (st : Task U.User)
      → length st.mem ≡ globalmem_size
      → st.f_pos ≡ pos p
      → p ≤ globalmem_size
      → st.held ≡ false
      → write buf size st ≡ Globalmem.write U buf size st
  unfolding write Globalmem.write
  write-eq-unlocked buf size p st whole at inside free = ground (
    arith,
    clip_lem p size,
    to_u64-pos p,
    copy_in_lem U p buf (moved p size) st,
    copy_in_lem U p buf (moved p size) (record st { held = true }),
  )

  -- What the copy of a read at `p` returns, and what the caller gets back.
  abbrev outgoing : ℕ → ℕ → ℕ → Task U.User → ℕ × U.User
  outgoing buf size p st = U.copy_to_user st.user buf (slice st.mem p (moved p size))

  -- A read before the end of the memory releases the mutex without having taken it: with the mutex
  -- free it unlocks a free mutex, and with the mutex held by another task that task loses it.
  pub read_releases :
      (buf size p : ℕ) (st : Task U.User)
      → length st.mem ≡ globalmem_size
      → st.f_pos ≡ pos p
      → p < globalmem_size
      → (read buf size (record st { held = false }) ≡ misuse)
        × ((r : ℤ) × (end : Task U.User) × (read buf size (record st { held = true }) ≡ done r end)
            × (end.held ≡ false))
  unfolding read
  read_releases buf size p st whole at inside =
      let left = (outgoing buf size p st).0 in
      let r : ℤ = if left == 0 then pos (moved p size) else efault in
      let end : Task U.User = record st {
        held = false;
        user = (outgoing buf size p st).1;
        f_pos = if left == 0 then pos (p + moved p size) else pos p;
      } in
      (
        ground (
          arith,
          clip_lem p size,
          to_u64-pos p,
          copy_out_lem U buf p (moved p size) (record st { held = false }),
        ),
        (
          r,
          end,
          ground (
            arith,
            clip_lem p size,
            to_u64-pos p,
            copy_out_lem U buf p (moved p size) (record st { held = true }),
            add_s64-pos p (moved p size),
          ),
          refl,
        ),
      )

pub open_device : Opened
open_device = Cdev.open_first

pub release : ℤ
release = Cdev.release

-- globalmem_init and globalmem_exit: one device.
pub init : ℕ → Answers → Loaded
init = Cdev.init 1

pub exit : ℕ → List Event
exit = Cdev.exit 1
