-- ===== src/Fifo/System.antt =====
-- Any number of readers and writers over one device of code/globalfifo/ch9/globalfifo.c, or of another
-- driver of its kind. Every access to the device but those to the list of files that asked for SIGIO
-- stands between `mutex_lock` and `mutex_unlock`, so a step is a whole locked section, a call, a signal,
-- FIFO_CLEAR or a change of that list. A caller marks itself TASK_INTERRUPTIBLE and is on its queue before
-- it unlocks, so falling asleep is one step with the section; Fifo.Mutex takes these apart.
pub mod Moves
pub mod Invariant
pub mod Reachable
use linux_drivers_study.Prelude.{
  ℕ, ◌≡◌, ◌⊎◌, Bool, true, false, List, [], ◌++◌, ◌==◌, if◌then◌else◌,
}
use linux_drivers_study.Prelude.Bytes.{Bytes}
use linux_drivers_study.Prelude.Int.{ℤ, pos, negsuc}
use linux_drivers_study.Kernel.Uaccess.{Uaccess}
use linux_drivers_study.Fifo.{
  Fifo, Signals, Section, fin, sleep, read_section, write_section, clear,
}

-- The arguments of a call: O_NONBLOCK, the buffer, the count, and the memory of the caller.
pub record Request (User : Type 0) : Type 0 where
  pub nonblock : Bool
  pub buf : ℕ
  pub count : ℕ
  pub user : User

pub data Call (User : Type 0) : Type 0 where
  reading writing : Request User → Call User

-- Outside the driver; about to take the mutex, for the first time or after `schedule()`; in
-- `schedule()`, on the wait queue of its kind of call.
pub data Pc (User : Type 0) : Type 0 where
  idle : Pc User
  ready : (slept : Bool) → Call User → Pc User
  asleep : Call User → Pc User

-- wake_up_interruptible on the queues that the signals name.
abbrev pub wake : {User : Type 0} → Signals → Pc User → Pc User
wake s idle = idle
wake s (ready slept c) = ready slept c
wake s (asleep (reading r)) = if s.readers then ready true (reading r) else asleep (reading r)
wake s (asleep (writing r)) = if s.writers then ready true (writing r) else asleep (writing r)

abbrev pub update : {A : Type 0} → (ℕ → A) → ℕ → A → ℕ → A
update f i a j = if i == j then a else f j

module _ (U : Uaccess) where
  unfoldable pub section : Call U.User → Fifo → Section U.User
  section (reading r) f = read_section U r.nonblock r.buf r.count f r.user
  section (writing r) f = write_section U r.nonblock r.buf r.count f r.user

  -- The locked sections of a driver of this kind, of which `section` is globalfifo's.
  abbrev pub Sections : Type 0
  Sections = Call U.User → Fifo → Section U.User

  -- What a call that returned `ret` took from its caller's buffer, or put into it.
  abbrev pub sent : Call U.User → ℤ → Bytes
  sent (writing r) (pos n) = U.read_user r.user r.buf n
  sent (writing r) (negsuc e) = []
  sent (reading r) ret = []

  abbrev pub received : Call U.User → ℤ → U.User → Bytes
  received (reading r) (pos n) user = U.read_user user r.buf n
  received (reading r) (negsuc e) user = []
  received (writing r) ret user = []

-- `written` and `delivered` record what the callers' buffers held; the driver does not see them.
pub record System (User : Type 0) : Type 0 where
  pub fifo : Fifo
  pub pc : ℕ → Pc User
  pub written : Bytes
  pub delivered : Bytes

-- `clears`: whether some process may issue FIFO_CLEAR.
pub data Step (U : Uaccess) (D : Sections U) (clears : Bool) (s : System U.User)
    : System U.User → Type 0 where
  call :
      (i : ℕ) (c : Call U.User)
      → s.pc i ≡ idle
      → Step U D clears s (record s { pc = update s.pc i (ready false c) })
  finish :
      (i : ℕ) (slept : Bool) (c : Call U.User) (ret : ℤ) (f : Fifo) (user : U.User) (sig : Signals)
      → s.pc i ≡ ready slept c
      → D c s.fifo ≡ fin ret f user sig
      → Step U D clears s (record {
        fifo = f;
        pc = update (λ j. wake sig (s.pc j)) i idle;
        written = s.written ++ sent U c ret;
        delivered = s.delivered ++ received U c ret user;
      })
  fall_asleep :
      (i : ℕ) (slept : Bool) (c : Call U.User)
      → s.pc i ≡ ready slept c
      → D c s.fifo ≡ sleep
      → Step U D clears s (record s { pc = update s.pc i (asleep c) })
  interrupt :
      (i : ℕ) (c : Call U.User)
      → (s.pc i ≡ asleep c) ⊎ (s.pc i ≡ ready true c)
      → Step U D clears s (record s { pc = update s.pc i idle })
  clear_all : clears ≡ true → Step U D clears s (record s { fifo = clear s.fifo })
  fasync_changes :
      (queue : List ℕ)
      → Step U D clears s (record s { fifo = record s.fifo { async_queue = queue } })

-- From a loaded device that nobody uses.
pub data Reach (U : Uaccess) (D : Sections U) (clears : Bool) (s : System U.User)
    : System U.User → Type 0 where
  start : Reach U D clears s s
  later : {t u : System U.User} → Reach U D clears s t → Step U D clears t u → Reach U D clears s u
