-- ===== src/Fifo/Mutex/Exclusion.antt =====
-- Who has the mutex of code/globalfifo/ch9/globalfifo.c.
use linux_drivers_study.Prelude.{
  ℕ, ◌≡◌, Bool, true, false, none, some, arith, inl, inr, refl, ap, List, [], replicate, Bool-cases,
  ◌⊎◌,
}
use linux_drivers_study.Kernel.Uaccess.{Uaccess}
use linux_drivers_study.Fifo.{Fifo, quiet, Signals, globalfifo_size}
use linux_drivers_study.Fifo.System.{update, Sections}
use linux_drivers_study.Fifo.Mutex.{
  Place, holds, is_waking, wake_up, Machine, goes, Step, call, lock, transfer, wake_others, unlock,
  mark, unlock_marked, schedule, interrupt, resume, call_clear, lock_clear, clear_all, unlock_clear,
  call_poll, lock_poll, unlock_poll, fasync_changes, Reach, start, later, outside, waking, cleared,
}

-- Whoever is in a critical section is the owner of the mutex, and the owner is in one. Wake-ups are
-- due only while the owner is `waking`.
pub record Inv {User : Type 0} (m : Machine User) : Type 0 where
  pub holder : (i : ℕ) → holds (m.place i) ≡ true → m.owner ≡ some i
  pub inside : (i : ℕ) → m.owner ≡ some i → holds (m.place i) ≡ true
  pub calm : (i : ℕ) → m.owner ≡ some i → is_waking (m.place i) ≡ false → m.pending ≡ quiet
  pub free : m.owner ≡ none → m.pending ≡ quiet

module _ {User : Type 0} (m : Machine User) (v : Inv m) (i : ℕ) where
  -- A step between two places outside the critical sections, or between two inside that are not `waking`.
  goes-Inv :
      (p : Place User)
      → holds p ≡ holds (m.place i)
      → is_waking (m.place i) ≡ false
      → Inv (goes m i p)
  goes-Inv p same calm = record {
    holder = λ j h. ground (arith, v.holder j, v.holder i);
    inside = λ j h. ground (arith, v.inside j, v.inside i);
    calm = λ j o w. ground (arith, v.calm j, v.calm i);
    free = v.free;
  }

  -- The process takes the mutex, and is not `waking`.
  takes-Inv :
      (p : Place User)
      → m.owner ≡ none
      → holds p ≡ true
      → Inv (record (goes m i p) { owner = some i })
  takes-Inv p is_free takes = record {
    holder = λ j h. ground (arith, v.holder j);
    inside = λ j h. ground (arith, v.inside j);
    calm = λ j o w. v.free is_free;
    free = λ o. cc;
  }

  -- The process gives the mutex back after its wake-ups.
  releases-Inv :
      (p : Place User)
      → holds (m.place i) ≡ true
      → is_waking (m.place i) ≡ false
      → holds p ≡ false
      → Inv (record (goes m i p) { owner = none })
  releases-Inv p has calm releases = record {
    holder = λ j h. ground (arith, v.holder j, v.holder i);
    inside = λ j h. cc;
    calm = λ j o w. cc;
    free = λ o. ground (arith, v.holder i, v.calm i);
  }

  -- The process goes on to `waking`.
  transfer-Inv :
      (p : Place User) (m' : Machine User)
      → holds (m.place i) ≡ true
      → holds p ≡ true
      → is_waking p ≡ true
      → m'.place ≡ (goes m i p).place
      → m'.owner ≡ m.owner
      → Inv m'
  transfer-Inv p m' has holds_p wakes places owners =
      let same : (j : ℕ) → m'.place j ≡ (goes m i p).place j = λ j. ap (λ f. f j) places in
      record {
        holder = λ j h. ground (arith, same j, v.holder j, v.holder i);
        inside = λ j h. ground (arith, same j, v.inside j);
        calm = λ j o w. ground (arith, same j, v.holder i);
        free = λ o. ground (arith, v.holder i);
      }

  wake_up-holds : (s : Signals) (p : Place User) → holds (wake_up s p) ≡ holds p
  wake_up-holds s p = ground arith

  wake_others-Inv :
      (p : Place User)
      → holds (m.place i) ≡ true
      → holds p ≡ true
      → Inv (record m { pending = quiet; place = update (λ j. wake_up m.pending (m.place j)) i p })
  wake_others-Inv p has holds_p = record {
    holder = λ j h. ground (arith, v.holder j, v.holder i, wake_up-holds m.pending (m.place j));
    inside = λ j h. ground (arith, v.inside j, wake_up-holds m.pending (m.place j));
    calm = λ j o w. refl;
    free = λ o. refl;
  }

  fifo-Inv : (f : Fifo) → Inv (record m { fifo = f })
  fifo-Inv f = record { holder = v.holder; inside = v.inside; calm = v.calm; free = v.free }

pub Step-Inv :
    (U : Uaccess) (D : Sections U) (clears : Bool) {m m' : Machine U.User}
    → Step U D clears m m'
    → Inv m
    → Inv m'
Step-Inv U D clears {m} (call i c at) v = goes-Inv m v i _ (rw at) (rw at)
Step-Inv U D clears {m} (lock i slept c at is_free) v = takes-Inv m v i _ is_free refl
Step-Inv U D clears {m} (transfer i slept c ret f user sig at ends) v =
    transfer-Inv m v i (waking ret) _ (rw at) refl refl refl refl
Step-Inv U D clears {m} (wake_others i ret at) v = wake_others-Inv m v i _ (rw at) refl
Step-Inv U D clears {m} (unlock i ret at) v = releases-Inv m v i _ (rw at) (rw at) refl
Step-Inv U D clears {m} (mark i slept c at ends) v = goes-Inv m v i _ (rw at) (rw at)
Step-Inv U D clears {m} (unlock_marked i c at) v = releases-Inv m v i _ (rw at) (rw at) refl
Step-Inv U D clears {m} (schedule i c at) v = goes-Inv m v i _ (rw at) (rw at)
Step-Inv U D clears {m} (interrupt i c (inl at)) v = goes-Inv m v i _ (rw at) (rw at)
Step-Inv U D clears {m} (interrupt i c (inr (inl at))) v = goes-Inv m v i _ (rw at) (rw at)
Step-Inv U D clears {m} (interrupt i c (inr (inr at))) v = goes-Inv m v i _ (rw at) (rw at)
Step-Inv U D clears {m} (resume i c at) v = goes-Inv m v i _ (rw at) (rw at)
Step-Inv U D clears {m} (call_clear i allowed at) v = goes-Inv m v i _ (rw at) (rw at)
Step-Inv U D clears {m} (lock_clear i at is_free) v = takes-Inv m v i _ is_free refl
Step-Inv U D clears {m} (clear_all i allowed at) v =
    fifo-Inv (goes m i cleared) (goes-Inv m v i cleared (rw at) (rw at)) i _
Step-Inv U D clears {m} (unlock_clear i at) v = releases-Inv m v i _ (rw at) (rw at) refl
Step-Inv U D clears {m} (call_poll i at) v = goes-Inv m v i _ (rw at) (rw at)
Step-Inv U D clears {m} (lock_poll i at is_free) v = takes-Inv m v i _ is_free refl
Step-Inv U D clears {m} (unlock_poll i at) v = releases-Inv m v i _ (rw at) (rw at) refl
Step-Inv U D clears {m} (fasync_changes queue) v = fifo-Inv m v 0 _

-- The device that kzalloc gives, with the mutex free and every process outside the driver.
abbrev pub loaded : (User : Type 0) → List ℕ → Machine User
loaded User async = record {
  fifo = record { current_len = 0; mem = replicate globalfifo_size 0; async_queue = async };
  owner = none;
  pending = quiet;
  place = λ i. outside;
  written = [];
  delivered = [];
}

loaded-Inv : (User : Type 0) (async : List ℕ) → Inv (loaded User async)
loaded-Inv User async = record {
  holder = λ i h. cc;
  inside = λ i h. cc;
  calm = λ i o w. refl;
  free = λ o. refl;
}

pub Reach-Inv :
    (U : Uaccess) (D : Sections U) (clears : Bool) (async : List ℕ)
    → {m : Machine U.User} → Reach U D clears (loaded U.User async) m
    → Inv m
Reach-Inv U D clears async start = loaded-Inv U.User async
Reach-Inv U D clears async (later r st) = Step-Inv U D clears st (Reach-Inv U D clears async r)

-- However processes interleave, a process in a critical section of the device owns the mutex, and no
-- other process is in one.
pub mutual_exclusion :
    (U : Uaccess) (D : Sections U) (clears : Bool) (async : List ℕ)
    → {m : Machine U.User} → Reach U D clears (loaded U.User async) m
    → (i j : ℕ) → holds (m.place i) ≡ true
    → (m.owner ≡ some i) × ((holds (m.place j) ≡ false) ⊎ (i ≡ j))
mutual_exclusion U D clears async {m} r i j h =
    let v = Reach-Inv U D clears async r in
    (
      v.holder i h,
      elim (Bool-cases (holds (m.place j))) [
        | inl h' ↦ inr (ground (arith, v.holder i, v.holder j))
        | inr out ↦ inl out
      ],
    )
