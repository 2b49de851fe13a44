-- ===== src/Fifo/Mutex.antt =====
-- The callers of code/globalfifo/ch9/globalfifo.c with the mutex and the wait queues spelled out: taking
-- and giving back the mutex, marking oneself TASK_INTERRUPTIBLE, falling asleep, waking others and
-- running again are steps of their own, between which any other process may step. Adding a process to
-- the list of a wait queue, walking the list and unlinking a process is atomic here. The source does not
-- ensure the last: globalfifo_read unlinks from r_wait under the lock of w_wait.
pub mod Exclusion
pub mod Refines
pub mod Waiting
pub mod Advance
pub mod Progress
use linux_drivers_study.Prelude.{
  ℕ, ◌≡◌, ◌⊎◌, Bool, true, false, List, [], ◌++◌, Option, none, some, if◌then◌else◌,
}
use linux_drivers_study.Prelude.Bytes.{Bytes}
use linux_drivers_study.Prelude.Int.{ℤ}
use linux_drivers_study.Kernel.Uaccess.{Uaccess}
use linux_drivers_study.Fifo.{Fifo, Signals, quiet, fin, sleep, clear}
use linux_drivers_study.Fifo.System.{Call, reading, writing, Sections, sent, received, update}

-- `locking`, `clear_locking`, `poll_locking`: in `mutex_lock`. `inside`: at the test of the wait loop. `marked`: set to
-- TASK_INTERRUPTIBLE, at `mutex_unlock`. `unlocked`: before `schedule()` takes it off its processor.
-- `asleep`: in `schedule()`. `woken`: runnable, at the test of signal_pending. `waking`: the transfer is
-- done, the wake-ups are not. `leaving`, `cleared`, `poll_inside`: at the last `mutex_unlock`; what poll reads
-- is in Fifo.poll.
pub data Place (User : Type 0) : Type 0 where
  outside : Place User
  locking inside : (slept : Bool) → Call User → Place User
  marked unlocked asleep woken : Call User → Place User
  waking leaving : (ret : ℤ) → Place User
  clear_locking clear_inside cleared : Place User
  poll_locking poll_inside : Place User

-- Whether a process at this place has the mutex.
abbrev pub holds : {User : Type 0} → Place User → Bool
holds (inside slept c) = true
holds (marked c) = true
holds (waking ret) = true
holds (leaving ret) = true
holds clear_inside = true
holds cleared = true
holds poll_inside = true
holds _ = false

-- Where a process goes that gets the mutex.
abbrev pub entered : {User : Type 0} → Place User → Option (Place User)
entered (locking slept c) = some (inside slept c)
entered clear_locking = some clear_inside
entered poll_locking = some poll_inside
entered _ = none

abbrev pub is_waking : {User : Type 0} → Place User → Bool
is_waking (waking ret) = true
is_waking _ = false

abbrev pub wanted : {User : Type 0} → Signals → Call User → Bool
wanted s (reading r) = s.readers
wanted s (writing r) = s.writers

-- wake_up_interruptible makes the sleepers of a queue runnable, and those that are about to sleep.
-- Who wakes has the mutex, so nobody is `marked` then.
abbrev pub wake_up : {User : Type 0} → Signals → Place User → Place User
wake_up s (unlocked c) = if wanted s c then woken c else unlocked c
wake_up s (asleep c) = if wanted s c then woken c else asleep c
wake_up s p = p

-- `pending`: the wake-ups that the process with the mutex has still to do.
pub record Machine (User : Type 0) : Type 0 where
  pub fifo : Fifo
  pub owner : Option ℕ
  pub pending : Signals
  pub place : ℕ → Place User
  pub written : Bytes
  pub delivered : Bytes

-- Process `i` goes on to `p`.
abbrev pub goes : {User : Type 0} → Machine User → ℕ → Place User → Machine User
goes m i p = record m { place = update m.place i p }

-- `clears`: whether some process may issue FIFO_CLEAR.
pub data Step (U : Uaccess) (D : Sections U) (clears : Bool) (m : Machine U.User)
    : Machine U.User → Type 0 where
  call :
      (i : ℕ) (c : Call U.User)
      → m.place i ≡ outside
      → Step U D clears m (goes m i (locking false c))
  lock :
      (i : ℕ) (slept : Bool) (c : Call U.User)
      → m.place i ≡ locking slept c
      → m.owner ≡ none
      → Step U D clears m (record (goes m i (inside slept c)) { owner = some i })
  transfer :
      (i : ℕ) (slept : Bool) (c : Call U.User) (ret : ℤ) (f : Fifo) (user : U.User) (sig : Signals)
      → m.place i ≡ inside slept c
      → D c m.fifo ≡ fin ret f user sig
      → Step U D clears m (record (goes m i (waking ret)) {
        fifo = f;
        pending = sig;
        written = m.written ++ sent U c ret;
        delivered = m.delivered ++ received U c ret user;
      })
  wake_others :
      (i : ℕ) (ret : ℤ)
      → m.place i ≡ waking ret
      → Step U D clears m (record m {
        pending = quiet;
        place = update (λ j. wake_up m.pending (m.place j)) i (leaving ret);
      })
  unlock :
      (i : ℕ) (ret : ℤ)
      → m.place i ≡ leaving ret
      → Step U D clears m (record (goes m i outside) { owner = none })
  mark :
      (i : ℕ) (slept : Bool) (c : Call U.User)
      → m.place i ≡ inside slept c
      → D c m.fifo ≡ sleep
      → Step U D clears m (goes m i (marked c))
  unlock_marked :
      (i : ℕ) (c : Call U.User)
      → m.place i ≡ marked c
      → Step U D clears m (record (goes m i (unlocked c)) { owner = none })
  schedule :
      (i : ℕ) (c : Call U.User) → m.place i ≡ unlocked c → Step U D clears m (goes m i (asleep c))
  -- -ERESTARTSYS, before, while or after the process sleeps.
  interrupt :
      (i : ℕ) (c : Call U.User)
      → (m.place i ≡ unlocked c) ⊎ (m.place i ≡ asleep c) ⊎ (m.place i ≡ woken c)
      → Step U D clears m (goes m i outside)
  resume :
      (i : ℕ) (c : Call U.User)
      → m.place i ≡ woken c
      → Step U D clears m (goes m i (locking true c))
  call_clear :
      (i : ℕ) → clears ≡ true → m.place i ≡ outside → Step U D clears m (goes m i clear_locking)
  lock_clear :
      (i : ℕ)
      → m.place i ≡ clear_locking
      → m.owner ≡ none
      → Step U D clears m (record (goes m i clear_inside) { owner = some i })
  clear_all :
      (i : ℕ)
      → clears ≡ true
      → m.place i ≡ clear_inside
      → Step U D clears m (record (goes m i cleared) { fifo = clear m.fifo })
  unlock_clear :
      (i : ℕ) → m.place i ≡ cleared → Step U D clears m (record (goes m i outside) { owner = none })
  call_poll : (i : ℕ) → m.place i ≡ outside → Step U D clears m (goes m i poll_locking)
  lock_poll :
      (i : ℕ)
      → m.place i ≡ poll_locking
      → m.owner ≡ none
      → Step U D clears m (record (goes m i poll_inside) { owner = some i })
  unlock_poll :
      (i : ℕ)
      → m.place i ≡ poll_inside
      → Step U D clears m (record (goes m i outside) { owner = none })
  fasync_changes :
      (queue : List ℕ)
      → Step U D clears m (record m { fifo = record m.fifo { async_queue = queue } })

pub data Reach (U : Uaccess) (D : Sections U) (clears : Bool) (m : Machine U.User)
    : Machine U.User → Type 0 where
  start : Reach U D clears m m
  later :
      {m' m'' : Machine U.User}
      → Reach U D clears m m'
      → Step U D clears m' m''
      → Reach U D clears m m''
