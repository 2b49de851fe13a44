-- ===== src/Fifo/Mutex/Advance.antt =====
-- What the process with the mutex of code/globalfifo/ch9/globalfifo.c does next.
use linux_drivers_study.Prelude.{ℕ, ◌≡◌, ◌⊎◌, Bool, true, none, some, arith, inl, inr, refl, ◌<◌}
use linux_drivers_study.Prelude.Int.{ℤ}
use linux_drivers_study.Kernel.Uaccess.{Uaccess}
use linux_drivers_study.Fifo.{Fifo, Signals, Section, fin, sleep, fault}
use linux_drivers_study.Fifo.Sections.{IsValid}
use linux_drivers_study.Fifo.Handlers.{IsSafeSection, read_section-IsSafe, write_section-IsSafe}
use linux_drivers_study.Fifo.System.{Sections, Call, reading, writing, update, section}
use linux_drivers_study.Fifo.System.Moves.{Agrees}
use linux_drivers_study.Fifo.Mutex.{
  Place, holds, Machine, Step, transfer, wake_others, unlock, mark, unlock_marked, clear_all,
  unlock_clear, unlock_poll, entered, outside, inside, poll_inside, marked, unlocked, waking,
  leaving, clear_inside, cleared,
}

-- How many steps a process at this place is from giving the mutex back, at most.
abbrev pub steps_left : {User : Type 0} → Place User → ℕ
steps_left (inside slept c) = 3
steps_left (waking ret) = 2
steps_left (leaving ret) = 1
steps_left (marked c) = 1
steps_left clear_inside = 2
steps_left cleared = 1
steps_left poll_inside = 1
steps_left _ = 0

-- Process `i` gives the mutex back or comes nearer to it, and who waits for the mutex still does.
pub record Advance (U : Uaccess) (D : Sections U) (m : Machine U.User) (i : ℕ) : Type 0 where
  pub next : Machine U.User
  pub step : Step U D true m next
  pub nearer :
      (next.owner ≡ none)
      ⊎ ((next.owner ≡ some i) × (steps_left (next.place i) < steps_left (m.place i)))
  pub others :
      (j : ℕ) (p : Place U.User) → entered (m.place j) ≡ some p → entered (next.place j) ≡ some p

-- A section on a valid device ends or sleeps.
data Ends {User : Type 0} (s : Section User) : Type 0 where
  ended : (ret : ℤ) (f : Fifo) (user : User) (sig : Signals) → s ≡ fin ret f user sig → Ends s
  slept_on : s ≡ sleep → Ends s

module _ (U : Uaccess) (D : Sections U) (agrees : Agrees U D) where
  IsSafeSection-Ends : (nonblock : Bool) (s : Section U.User) → IsSafeSection nonblock s → Ends s
  IsSafeSection-Ends nonblock (fin ret f user sig) h = ended ret f user sig refl
  IsSafeSection-Ends nonblock sleep h = slept_on refl
  IsSafeSection-Ends nonblock fault h = absurd h

  section-Ends : (c : Call U.User) (f : Fifo) → IsValid f → Ends (section U c f)
  unfolding section
  section-Ends (reading r) f v =
      IsSafeSection-Ends r.nonblock _ (read_section-IsSafe U r.buf r.count f r.user v r.nonblock)
  section-Ends (writing r) f v =
      IsSafeSection-Ends r.nonblock _ (write_section-IsSafe U r.buf r.count f r.user v r.nonblock)

  module _ (m : Machine U.User) (i : ℕ) where
    goes-others :
        (p : Place U.User)
        → holds (m.place i) ≡ true
        → (j : ℕ) (q : Place U.User) → entered (m.place j) ≡ some q
        → entered (update m.place i p j) ≡ some q
    goes-others p has j q at = ground (arith, has, at)

    driver-Ends : (c : Call U.User) → IsValid m.fifo → Ends (D c m.fifo)
    driver-Ends c v = rw (agrees c m.fifo v) (section-Ends c m.fifo v)

    inside-Advance :
        (slept : Bool) (c : Call U.User)
        → IsValid m.fifo
        → m.owner ≡ some i
        → m.place i ≡ inside slept c
        → Advance U D m i
    inside-Advance slept c v has at = elim (driver-Ends c v) [
      | ended ret f user sig ends ↦ record {
        next = _;
        step = transfer i slept c ret f user sig at ends;
        nearer = inr (has, ground (arith, at));
        others = goes-others (waking ret) (rw at);
      }
      | slept_on ends ↦ record {
        next = _;
        step = mark i slept c at ends;
        nearer = inr (has, ground (arith, at));
        others = goes-others (marked c) (rw at);
      }
    ]

    wake_others-Advance : (ret : ℤ) → m.owner ≡ some i → m.place i ≡ waking ret → Advance U D m i
    wake_others-Advance ret has at = record {
      next = _;
      step = wake_others i ret at;
      nearer = inr (has, ground (arith, at));
      others = λ j q e. ground (arith, at, e);
    }

    pub holder-Advance :
        (p : Place U.User)
        → IsValid m.fifo
        → m.owner ≡ some i
        → m.place i ≡ p
        → holds p ≡ true
        → Advance U D m i
    holder-Advance (inside slept c) v has at h = inside-Advance slept c v has at
    holder-Advance (waking ret) v has at h = wake_others-Advance ret has at
    holder-Advance (leaving ret) v has at h = record {
      next = _;
      step = unlock i ret at;
      nearer = inl refl;
      others = goes-others outside (rw at);
    }
    holder-Advance (marked c) v has at h = record {
      next = _;
      step = unlock_marked i c at;
      nearer = inl refl;
      others = goes-others (unlocked c) (rw at);
    }
    holder-Advance clear_inside v has at h = record {
      next = _;
      step = clear_all i refl at;
      nearer = inr (has, ground (arith, at));
      others = goes-others cleared (rw at);
    }
    holder-Advance cleared v has at h = record {
      next = _;
      step = unlock_clear i at;
      nearer = inl refl;
      others = goes-others outside (rw at);
    }
    holder-Advance poll_inside v has at h = record {
      next = _;
      step = unlock_poll i at;
      nearer = inl refl;
      others = goes-others outside (rw at);
    }
    holder-Advance _ v has at h = cc
