-- ===== src/Scull/Pipe/Sleepers.antt =====
-- Who sleeps beside the pipe of code/examples/scull/pipe.c. A section up to its up() is one step and the
-- wake-up behind it another. A sleep with the test of its condition is one step too:
-- `wait_event_interruptible` and the test after `prepare_to_wait` look again once the caller is on the
-- queue. The pipe is not opened meanwhile.
use linux_drivers_study.Prelude.{
  ℕ, suc, ◌-◌, ◌≡◌, ◌⊎◌, inl, inr, refl, arith, length, ◌==◌, if◌then◌else◌, Bool, true, false,
  Option, ◌≤◌, ◌+◌, ◌<◌,
}
use linux_drivers_study.Prelude.Bytes.{Bytes}
use linux_drivers_study.Prelude.Int.{ℤ}
use linux_drivers_study.Kernel.Uaccess.{Uaccess, IsLawful}
use linux_drivers_study.Fifo.{Signals}
use linux_drivers_study.Scull.Pipe.{Pipe, Mode, fin, sleep, read_section, write_section, open_pipe}
use linux_drivers_study.Scull.Pipe.Queue.{IsValid, contents}
use linux_drivers_study.Scull.Pipe.Leaves.{Leaves, read_leaves, write_leaves}

-- The pipe, how many sleep on inq and on outq, and how many have given back the semaphore and are about to
-- wake those on inq and on outq.
pub record Yard : Type 0 where
  pub pipe : Pipe
  pub readers : ℕ
  pub writers : ℕ
  pub readers_due : ℕ
  pub writers_due : ℕ

-- After the up() of a section that wakes as `s` says.
abbrev pub released : Pipe → Signals → Yard → Yard
released p s y = record y {
  pipe = p;
  readers_due = (if s.readers then 1 else 0) + y.readers_due;
  writers_due = (if s.writers then 1 else 0) + y.writers_due;
}

-- wake_up_interruptible empties a queue: who is woken comes back to run a section.
abbrev pub woken_readers : ℕ → Yard → Yard
woken_readers n y = record y { readers = 0; readers_due = n }

abbrev pub woken_writers : ℕ → Yard → Yard
woken_writers n y = record y { writers = 0; writers_due = n }

-- The steps of any number of processes that read and write.
pub data Step (U : Uaccess) : Yard → Yard → Type 0 where
  reads :
      {y : Yard} {ret : ℤ} {p : Pipe} {user' : U.User} {s : Signals} (nonblock : Bool)
      (buf count : ℕ) (user : U.User)
      → read_section U nonblock buf count y.pipe user ≡ fin ret p user' s
      → Step U y (released p s y)
  reader_sleeps :
      {y : Yard} (nonblock : Bool) (buf count : ℕ) (user : U.User)
      → read_section U nonblock buf count y.pipe user ≡ sleep
      → Step U y (record y { readers = suc y.readers })
  writes :
      {y : Yard} {ret : ℤ} {p : Pipe} {user' : U.User} {s : Signals} (nonblock : Bool)
      (buf count : ℕ) (user : U.User)
      → write_section U nonblock buf count y.pipe user ≡ fin ret p user' s
      → Step U y (released p s y)
  writer_sleeps :
      {y : Yard} (nonblock : Bool) (buf count : ℕ) (user : U.User)
      → write_section U nonblock buf count y.pipe user ≡ sleep
      → Step U y (record y { writers = suc y.writers })
  wakes_readers : {y : Yard} {n : ℕ} → y.readers_due ≡ suc n → Step U y (woken_readers n y)
  wakes_writers : {y : Yard} {n : ℕ} → y.writers_due ≡ suc n → Step U y (woken_writers n y)
  reader_interrupted : {y : Yard} {n : ℕ} → y.readers ≡ suc n → Step U y (record y { readers = n })
  writer_interrupted : {y : Yard} {n : ℕ} → y.writers ≡ suc n → Step U y (record y { writers = n })

abbrev pub quiet_yard : Pipe → Yard
quiet_yard p = record { pipe = p; readers = 0; writers = 0; readers_due = 0; writers_due = 0 }

pub data Reach (U : Uaccess) (p : Pipe) : Yard → Type 0 where
  start : Reach U p (quiet_yard p)
  after : {y y' : Yard} → Reach U p y → Step U y y' → Reach U p y'

-- Who sleeps has nothing to do, or will be woken.
pub record IsAwake (y : Yard) : Type 0 where
  pub valid : IsValid y.pipe
  pub readers_wait : (y.readers ≡ 0) ⊎ ((length (contents y.pipe) ≡ 0) ⊎ (0 < y.readers_due))
  pub writers_wait :
      (y.writers ≡ 0) ⊎ ((length (contents y.pipe) ≡ y.pipe.buffersize - 1) ⊎ (0 < y.writers_due))

released-IsAwake :
    {User : Type 0} (y : Yard) (ret : ℤ) (p : Pipe) (user' : User) (s : Signals)
    → IsAwake y
    → Leaves y.pipe (fin ret p user' s)
    → IsAwake (released p s y)
released-IsAwake y ret p user' s h l = record {
  valid = l.0;
  readers_wait = ground (arith, h, l);
  writers_wait = ground (arith, h, l);
}

Step-IsAwake : (U : Uaccess) → IsLawful U → {y y' : Yard} → Step U y y' → IsAwake y → IsAwake y'
Step-IsAwake U lawful {y}
      (reads {ret = ret} {p = p} {user' = user'} {s = s} nonblock buf count user e) h =
    let l = read_leaves U lawful nonblock buf count y.pipe user h.valid in
    released-IsAwake y ret p user' s h (rw e at l.0)
Step-IsAwake U lawful {y} (reader_sleeps nonblock buf count user e) h =
    let l = read_leaves U lawful nonblock buf count y.pipe user h.valid in
    let empty : (length (contents y.pipe) == 0) ≡ true = rw e at l.1 in
    record {
      valid = h.valid;
      readers_wait = inr (inl (ground (arith, empty)));
      writers_wait = h.writers_wait;
    }
Step-IsAwake U lawful {y}
      (writes {ret = ret} {p = p} {user' = user'} {s = s} nonblock buf count user e) h =
    let l = write_leaves U lawful nonblock buf count y.pipe user h.valid in
    released-IsAwake y ret p user' s h (rw e at l.0)
Step-IsAwake U lawful {y} (writer_sleeps nonblock buf count user e) h =
    let l = write_leaves U lawful nonblock buf count y.pipe user h.valid in
    let full : (length (contents y.pipe) == y.pipe.buffersize - 1) ≡ true = rw e at l.1 in
    record {
      valid = h.valid;
      readers_wait = h.readers_wait;
      writers_wait = inr (inl (ground (arith, full)));
    }
Step-IsAwake U lawful (wakes_readers e) h = record {
  valid = h.valid;
  readers_wait = inl refl;
  writers_wait = h.writers_wait;
}
Step-IsAwake U lawful (wakes_writers e) h = record {
  valid = h.valid;
  readers_wait = h.readers_wait;
  writers_wait = inl refl;
}
Step-IsAwake U lawful (reader_interrupted e) h = record {
  valid = h.valid;
  readers_wait = ground (arith, h, e);
  writers_wait = h.writers_wait;
}
Step-IsAwake U lawful (writer_interrupted e) h = record {
  valid = h.valid;
  readers_wait = h.readers_wait;
  writers_wait = ground (arith, h, e);
}

Reach-IsAwake :
    (U : Uaccess) → IsLawful U → (p : Pipe) → IsValid p → {y : Yard} → Reach U p y → IsAwake y
Reach-IsAwake U lawful p v start = record {
  valid = v;
  readers_wait = inl refl;
  writers_wait = inl refl;
}
Reach-IsAwake U lawful p v (after r s) = Step-IsAwake U lawful s (Reach-IsAwake U lawful p v r)

-- Beside a valid pipe that is read and written by any number of processes and that nobody opens, with counts,
-- signals and failing copies as they come, no wake-up is lost: a reader sleeps only while the pipe is
-- empty or some process is about to wake the readers, and a writer only while it is full or some process
-- is about to wake the writers. In a buffer of two bytes or more, one of each kind sleeps only while a
-- wake-up is due.
pub never_both_asleep :
    (U : Uaccess)
    → IsLawful U
    → (p : Pipe) (y : Yard) → IsValid p
    → Reach U p y
    → IsValid y.pipe
      × ((y.readers ≡ 0) ⊎ ((length (contents y.pipe) ≡ 0) ⊎ (0 < y.readers_due)))
      × ((y.writers ≡ 0)
          ⊎ ((length (contents y.pipe) ≡ y.pipe.buffersize - 1) ⊎ (0 < y.writers_due)))
      × ((y.pipe.buffersize ≤ 1)
          ⊎ ((y.readers ≡ 0) ⊎ ((y.writers ≡ 0) ⊎ (0 < y.readers_due + y.writers_due))))
never_both_asleep U lawful p y v r =
    let h = Reach-IsAwake U lawful p v r in
    (h.valid, h.readers_wait, h.writers_wait, ground (arith, h))

-- An open leaves a valid pipe empty, whatever it held and whoever waits for room in it.
pub open_empties :
    (size : ℕ) (block : Option Bytes) (mode : Mode) (p : Pipe)
    → IsValid p
    → length (contents (open_pipe false size block mode p).1) ≡ 0
unfolding open_pipe
open_empties size block mode p v = ground (arith, v)
