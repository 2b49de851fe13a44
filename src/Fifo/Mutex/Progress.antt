-- ===== src/Fifo/Mutex/Progress.antt =====
-- The mutex of code/globalfifo/ch9/globalfifo.c is always given back.
use linux_drivers_study.Prelude.{
  ℕ, zero, suc, ◌≡◌, true, List, Option, none, some, arith, inl, inr, refl, ◌≤◌,
}
use mathlib.Core.Path.{subst}
use linux_drivers_study.Kernel.Uaccess.{Uaccess, IsLawful}
use linux_drivers_study.Fifo.System.{Sections, section}
use linux_drivers_study.Fifo.System.Moves.{Agrees}
use linux_drivers_study.Fifo.System.Reachable
use linux_drivers_study.Fifo.Mutex.{
  Place, Machine, Step, goes, lock, lock_clear, lock_poll, Reach, start, later, entered, locking,
  clear_locking, poll_locking,
}
use linux_drivers_study.Fifo.Mutex.Exclusion.{Reach-Inv, loaded}
use linux_drivers_study.Fifo.Mutex.Refines.{Reach-abstract}
use linux_drivers_study.Fifo.Mutex.Advance.{Advance, steps_left, holder-Advance}

module _ (U : Uaccess) (D : Sections U) (async : List ℕ) (lawful : IsLawful U)
    (agrees : Agrees U D) where
  Reach-trans :
      {m m' m'' : Machine U.User}
      → Reach U D true m m'
      → Reach U D true m' m''
      → Reach U D true m m''
  Reach-trans r start = r
  Reach-trans r (later r' st) = later (Reach-trans r r') st

  -- The holder can always go on, and comes nearer to giving the mutex back.
  owner-Advance :
      (m : Machine U.User) (i : ℕ)
      → Reach U D true (loaded U.User async) m
      → m.owner ≡ some i
      → Advance U D m i
  owner-Advance m i r has =
      holder-Advance U D agrees m i (m.place i)
        (Reachable.Reach-Inv U D true async lawful agrees (Reach-abstract U D true async r)).valid
        has refl ((Reach-Inv U D true async r).inside i has)

  -- A later state in which the mutex is free and whoever waited for it still does.
  record Freed (m : Machine U.User) : Type 0 where
    after : Machine U.User
    reach : Reach U D true m after
    free : after.owner ≡ none
    waiting :
        (j : ℕ) (p : Place U.User) → entered (m.place j) ≡ some p → entered (after.place j) ≡ some p

  Freed-later : (m : Machine U.User) (i : ℕ) (a : Advance U D m i) → Freed a.next → Freed m
  Freed-later m i a f = record {
    after = f.after;
    reach = Reach-trans (later start a.step) f.reach;
    free = f.free;
    waiting = λ j p e. f.waiting j p (a.others j p e);
  }

  owner-Freed :
      (n : ℕ) (m : Machine U.User) (i : ℕ)
      → steps_left (m.place i) ≤ n
      → Reach U D true (loaded U.User async) m
      → m.owner ≡ some i
      → Freed m
  owner-Freed zero m i h r has =
      absurd (ground (arith, h, (Reach-Inv U D true async r).inside i has))
  owner-Freed (suc n) m i h r has =
      let a = owner-Advance m i r has in
      elim a.nearer [
        | inl free ↦ record {
          after = a.next;
          reach = later start a.step;
          free = free;
          waiting = a.others;
        }
        | inr still ↦
            Freed-later m i a
              (owner-Freed n a.next i (omega (arith, still.1)) (later r a.step) still.0)
      ]

  Reach-Freed :
      (m : Machine U.User) (o : Option ℕ)
      → Reach U D true (loaded U.User async) m
      → m.owner ≡ o
      → Freed m
  Reach-Freed m none r e = record { after = m; reach = start; free = e; waiting = λ j p at. at }
  Reach-Freed m (some i) r e = owner-Freed (steps_left (m.place i)) m i (omega arith) r e

  enters :
      (m : Machine U.User) (i : ℕ) {p q : Place U.User}
      → p ≡ q
      → Step U D true m (record (goes m i p) { owner = some i })
      → Step U D true m (record (goes m i q) { owner = some i })
  enters m i e st =
      subst (λ (q : Place U.User). Step U D true m (record (goes m i q) { owner = some i })) e st

  -- Whoever waits for a free mutex can take it.
  enter :
      (m : Machine U.User) (i : ℕ) (at : Place U.User) (p : Place U.User)
      → m.place i ≡ at
      → m.owner ≡ none
      → entered at ≡ some p
      → Step U D true m (record (goes m i p) { owner = some i })
  enter m i (locking slept c) p e free h = enters m i (cc) (lock i slept c e free)
  enter m i clear_locking p e free h = enters m i (cc) (lock_clear i e free)
  enter m i poll_locking p e free h = enters m i (cc) (lock_poll i e free)
  enter m i _ p e free h = absurd (ground (arith, h))

  -- No deadlock, for any driver that agrees with globalfifo.
  pub driver_lock_can_be_taken :
      (m : Machine U.User) (i : ℕ) (p : Place U.User)
      → Reach U D true (loaded U.User async) m
      → entered (m.place i) ≡ some p
      → (m' : Machine U.User) × Reach U D true m m' × (m'.place i ≡ p) × (m'.owner ≡ some i)
  driver_lock_can_be_taken m i p r at =
      let f = Reach-Freed m m.owner r refl in
      (
        record (goes f.after i p) { owner = some i },
        later f.reach (enter f.after i (f.after.place i) p refl f.free (f.waiting i p at)),
        ground arith,
        refl,
      )

-- No deadlock: from every reachable state in which a process waits in `mutex_lock`, be it a read or a write,
-- for the first time or after it slept, an ioctl or a poll, a state can be reached in which it has the
-- mutex and is where it goes from there.
pub lock_can_be_taken :
    (U : Uaccess) (async : List ℕ)
    → IsLawful U
    → (m : Machine U.User) (i : ℕ) (p : Place U.User)
    → Reach U (section U) true (loaded U.User async) m
    → entered (m.place i) ≡ some p
    → (m' : Machine U.User) × Reach U (section U) true m m' × (m'.place i ≡ p) × (m'.owner ≡ some i)
lock_can_be_taken U async lawful =
    driver_lock_can_be_taken U (section U) async lawful (λ c f v. refl)
