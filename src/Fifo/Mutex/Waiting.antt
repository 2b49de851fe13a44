-- ===== src/Fifo/Mutex/Waiting.antt =====
-- What the steps of Fifo.Mutex keep, by way of the coarse system: the bytes, and that no wake-up of
-- code/globalfifo/ch9/globalfifo.c is lost.
use linux_drivers_study.Prelude.{
  Bool, refl, ℕ, ◌≡◌, ◌⊎◌, true, false, List, ◌++◌, inl, inr, ◌≤◌, Bool-cases,
}
use linux_drivers_study.Kernel.Uaccess.{Uaccess, IsLawful, CopiesUp}
use linux_drivers_study.Fifo.{Fifo, globalfifo_size, Signals}
use linux_drivers_study.Fifo.Sections.{contents}
use linux_drivers_study.Fifo.System
use linux_drivers_study.Fifo.System.{
  section, Sections, Request, Pc, Call, System, wake, update, reading, writing, sent, received,
}
use linux_drivers_study.Fifo.System.Moves.{Agrees}
use linux_drivers_study.Fifo.System.Reachable
use linux_drivers_study.Fifo.Mutex.{
  Place, Machine, Reach, outside, locking, inside, marked, unlocked, asleep, woken, waking, leaving,
  clear_locking, clear_inside, cleared, poll_locking, poll_inside,
}
use linux_drivers_study.Fifo.Mutex.Exclusion.{loaded}
use linux_drivers_study.Fifo.Mutex.Refines.{abstract_pc, Reach-abstract}

-- What `read` and `write` wait for is still so, or the wake-up is due. For a writer FIFO_CLEAR, which wakes
-- nobody, may be the reason that neither holds.
abbrev pub AwaitsCall : {User : Type 0} → Bool → Fifo → Signals → Call User → Type 0
AwaitsCall clears f s (reading r) = (f.current_len ≡ 0) ⊎ (s.readers ≡ true)
AwaitsCall clears f s (writing r) =
    (f.current_len ≡ globalfifo_size) ⊎ (s.writers ≡ true) ⊎ (clears ≡ true)

-- The bytes, for any driver that agrees with globalfifo.
pub driver_bytes_conserved :
    (U : Uaccess) (D : Sections U) (async : List ℕ)
    → IsLawful U
    → CopiesUp U
    → Agrees U D
    → {m : Machine U.User} → Reach U D false (loaded U.User async) m
    → (m.written ≡ m.delivered ++ contents m.fifo) × (m.fifo.current_len ≤ globalfifo_size)
driver_bytes_conserved U D async lawful up agrees r =
    Reachable.written-eq-delivered U D async lawful up agrees (Reach-abstract U D false async r)

-- Who sleeps or is about to has a reason, or the process with the mutex is about to wake it.
abbrev pub Awaits : {User : Type 0} → Bool → Fifo → Signals → Place User → Type 0
Awaits clears f s (marked c) = AwaitsCall clears f s c
Awaits clears f s (unlocked c) = AwaitsCall clears f s c
Awaits clears f s (asleep c) = AwaitsCall clears f s c
Awaits clears f s _ = Unit

-- What the coarse system's invariant says of a process.
record SleepsFor {User : Type 0} (clears : Bool) (f : Fifo) (pc : Pc User) : Type 0 where
  empty : (r : Request User) → pc ≡ System.asleep (reading r) → f.current_len ≡ 0
  full :
      (r : Request User)
      → clears ≡ false
      → pc ≡ System.asleep (writing r)
      → f.current_len ≡ globalfifo_size

AwaitsCall_lem :
    {User : Type 0} (clears : Bool) (f : Fifo) (s : Signals) (c : Call User)
    → SleepsFor clears f (wake s (System.asleep c))
    → AwaitsCall clears f s c
AwaitsCall_lem clears f s (reading r) h = elim (Bool-cases s.readers) [
  | inl due ↦ inr due
  | inr not_due ↦ inl (h.empty r (rw not_due refl))
]
AwaitsCall_lem true f s (writing r) h = inr (inr refl)
AwaitsCall_lem false f s (writing r) h = elim (Bool-cases s.writers) [
  | inl due ↦ inr (inl due)
  | inr not_due ↦ inl (h.full r refl (rw not_due refl))
]

Awaits_lem :
    {User : Type 0} (clears : Bool) (f : Fifo) (s : Signals) (p : Place User)
    → SleepsFor clears f (wake s (abstract_pc p))
    → Awaits clears f s p
Awaits_lem clears f s (marked c) h = AwaitsCall_lem clears f s c h
Awaits_lem clears f s (unlocked c) h = AwaitsCall_lem clears f s c h
Awaits_lem clears f s (asleep c) h = AwaitsCall_lem clears f s c h
Awaits_lem clears f s outside h = tt
Awaits_lem clears f s (locking slept c) h = tt
Awaits_lem clears f s (inside slept c) h = tt
Awaits_lem clears f s (woken c) h = tt
Awaits_lem clears f s (waking ret) h = tt
Awaits_lem clears f s (leaving ret) h = tt
Awaits_lem clears f s clear_locking h = tt
Awaits_lem clears f s clear_inside h = tt
Awaits_lem clears f s cleared h = tt
Awaits_lem clears f s poll_locking h = tt
Awaits_lem clears f s poll_inside h = tt

-- The wake-ups, for any driver that agrees with globalfifo.
pub driver_no_lost_wake_up :
    (U : Uaccess) (D : Sections U) (clears : Bool) (async : List ℕ)
    → IsLawful U
    → Agrees U D
    → {m : Machine U.User} → Reach U D clears (loaded U.User async) m
    → (i : ℕ) → Awaits clears m.fifo m.pending (m.place i)
driver_no_lost_wake_up U D clears async lawful agrees {m} r i =
    let v =
      Reachable.Reach-Inv U D clears async lawful agrees (Reach-abstract U D clears async r) in
    Awaits_lem clears m.fifo m.pending (m.place i)
      (record { empty = v.readers i; full = v.writers i })

-- With atomic operations on the lists of the wait queues no wake-up is lost, also none that comes between a process's mutex_unlock and its falling asleep: in every
-- reachable state, whoever sleeps or is about to in `read` does so on an empty device, and in `write` on a
-- full one, or the process that has the mutex is about to wake it. For writers this holds where nobody
-- issues FIFO_CLEAR.
pub no_lost_wake_up :
    (U : Uaccess) (clears : Bool) (async : List ℕ)
    → IsLawful U
    → {m : Machine U.User} → Reach U (section U) clears (loaded U.User async) m
    → (i : ℕ) → Awaits clears m.fifo m.pending (m.place i)
no_lost_wake_up U clears async lawful r i =
    driver_no_lost_wake_up U (section U) clears async lawful (λ c f v. refl) r i
