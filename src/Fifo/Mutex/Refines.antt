-- ===== src/Fifo/Mutex/Refines.antt =====
-- The step relation of Fifo.System, whose steps are whole locked sections, is enough: the finer one of
-- Fifo.Mutex goes through no other states.
use linux_drivers_study.Prelude.{
  ℕ, ◌≡◌, ◌⊎◌, Bool, true, List, ◌++◌, arith, inl, inr, refl, ap, sym,
}
use mathlib.Core.Path.{fun_ext, subst}
use linux_drivers_study.Kernel.Uaccess.{Uaccess}
use linux_drivers_study.Fifo.{quiet, Signals, clear}
use linux_drivers_study.Fifo.System
use linux_drivers_study.Fifo.System.{
  Sections, Pc, Call, System, wake, update, reading, writing, sent, received,
}
use linux_drivers_study.Fifo.System.Reachable
use linux_drivers_study.Fifo.Mutex.{
  Place, holds, is_waking, wake_up, Machine, goes, Step, call, lock, transfer, wake_others, unlock,
  mark, unlock_marked, schedule, interrupt, resume, call_clear, lock_clear, clear_all, unlock_clear,
  call_poll, lock_poll, unlock_poll, fasync_changes, Reach, start, later, locking, inside, marked,
  unlocked, asleep, woken, leaving,
}
use linux_drivers_study.Fifo.Mutex.Exclusion.{Inv, Reach-Inv, loaded}

-- Where a process stands in the coarse system. Marked, it counts as asleep; with its wake-up due, as
-- runnable.
abbrev pub abstract_pc : {User : Type 0} → Place User → Pc User
abstract_pc (locking slept c) = System.ready slept c
abstract_pc (inside slept c) = System.ready slept c
abstract_pc (marked c) = System.asleep c
abstract_pc (unlocked c) = System.asleep c
abstract_pc (asleep c) = System.asleep c
abstract_pc (woken c) = System.ready true c
abstract_pc _ = System.idle

abbrev pub abstract : {User : Type 0} → Machine User → System User
abstract m = record {
  fifo = m.fifo;
  pc = λ i. wake m.pending (abstract_pc (m.place i));
  written = m.written;
  delivered = m.delivered;
}

module _ {User : Type 0} (m : Machine User) (i : ℕ) where
  goes_pc :
      (p : Place User)
      → (abstract (goes m i p)).pc ≡ update (abstract m).pc i (wake m.pending (abstract_pc p))
  goes_pc p = fun_ext (λ j. ground arith)

  -- A step between two places that the coarse system does not tell apart.
  abstract-stutter :
      (p : Place User)
      → wake m.pending (abstract_pc p) ≡ wake m.pending (abstract_pc (m.place i))
      → abstract (goes m i p) ≡ abstract m
  abstract-stutter p same =
      ap (λ pc. record (abstract m) { pc = pc }) (fun_ext (λ j. ground (arith, same)))

  -- Whether the wake-ups are due or done makes no difference to it, when nobody is marked.
  abstract-wake_others :
      (p : Place User)
      → Inv m
      → holds (m.place i) ≡ true
      → abstract_pc p ≡ System.idle
      → abstract_pc (m.place i) ≡ System.idle
      → is_waking (m.place i) ≡ true
      → abstract
          (record m { pending = quiet; place = update (λ j. wake_up m.pending (m.place j)) i p })
        ≡ abstract m
  abstract-wake_others p v has after before wakes =
      ap (λ pc. record (abstract m) { pc = pc })
        (fun_ext (λ j. ground (arith, v.holder i, v.holder j, after, before, wakes)))

-- What a fine step is to the coarse system: nothing, or a step.
abbrev pub Simulates : (U : Uaccess) → Sections U → Bool → System U.User → System U.User → Type 0
Simulates U D clears s s' = (s' ≡ s) ⊎ System.Step U D clears s s'

module _ (U : Uaccess) (D : Sections U) (clears : Bool) where
  becomes :
      {s t s' : System U.User} → System.Step U D clears s t → t ≡ s' → Simulates U D clears s s'
  becomes {s} st e = inr (subst (λ u. System.Step U D clears s u) e st)

  -- A step of the coarse system that puts process `i` at the place that `p` stands for.
  goes-becomes :
      (m : Machine U.User) (i : ℕ) (p : Place U.User)
      → System.Step U D clears
          (abstract m)
          (record (abstract m) { pc = update (abstract m).pc i (wake m.pending (abstract_pc p)) })
      → Simulates U D clears (abstract m) (abstract (goes m i p))
  goes-becomes m i p st =
      becomes st (ap (λ pc. record (abstract m) { pc = pc }) (sym (goes_pc m i p)))

  wake-asleep :
      (s : Signals) (c : Call U.User)
      → (wake s (System.asleep c) ≡ System.asleep c)
        ⊎ (wake s (System.asleep c) ≡ System.ready true c)
  wake-asleep s (reading r) = ground arith
  wake-asleep s (writing r) = ground arith

  Step-Simulates :
      {m m' : Machine U.User}
      → Step U D clears m m'
      → Inv m
      → Simulates U D clears (abstract m) (abstract m')
  Step-Simulates {m} (call i c at) v = goes-becomes m i _ (System.call i c (rw at))
  Step-Simulates {m} (lock i slept c at is_free) v = inl (abstract-stutter m i _ (rw at))
  Step-Simulates {m} (transfer i slept c ret f user sig at ends) v =
      let calm : m.pending ≡ quiet = v.calm i (v.holder i (rw at)) (rw at) in
      becomes (System.finish i slept c ret f user sig (rw at) ends) (
        ap
          (λ pc. record {
            fifo = f;
            pc = pc;
            written = m.written ++ sent U c ret;
            delivered = m.delivered ++ received U c ret user;
          })
          (fun_ext (λ j. ground (arith, calm))))
  Step-Simulates {m} (wake_others i ret at) v =
      inl (abstract-wake_others m i (leaving ret) v (rw at) refl (rw at) (rw at))
  Step-Simulates {m} (unlock i ret at) v = inl (abstract-stutter m i _ (rw at))
  Step-Simulates {m} (mark i slept c at ends) v =
      let calm : m.pending ≡ quiet = v.calm i (v.holder i (rw at)) (rw at) in
      becomes (System.fall_asleep i slept c (rw at) ends)
        (ap (λ pc. record (abstract m) { pc = pc }) (fun_ext (λ j. ground (arith, calm))))
  Step-Simulates {m} (unlock_marked i c at) v = inl (abstract-stutter m i _ (rw at))
  Step-Simulates {m} (schedule i c at) v = inl (abstract-stutter m i _ (rw at))
  Step-Simulates {m} (interrupt i c (inl at)) v =
      goes-becomes m i _ (System.interrupt i c (rw at (wake-asleep m.pending c)))
  Step-Simulates {m} (interrupt i c (inr (inl at))) v =
      goes-becomes m i _ (System.interrupt i c (rw at (wake-asleep m.pending c)))
  Step-Simulates {m} (interrupt i c (inr (inr at))) v =
      goes-becomes m i _ (System.interrupt i c (inr (rw at)))
  Step-Simulates {m} (resume i c at) v = inl (abstract-stutter m i _ (rw at))
  Step-Simulates {m} (call_clear i allowed at) v = inl (abstract-stutter m i _ (rw at))
  Step-Simulates {m} (lock_clear i at is_free) v = inl (abstract-stutter m i _ (rw at))
  Step-Simulates {m} (clear_all i allowed at) v = becomes (System.clear_all allowed) (
      ap (λ pc. record (abstract m) { fifo = clear m.fifo; pc = pc }) (fun_ext (λ j. ground arith)))
  Step-Simulates {m} (unlock_clear i at) v = inl (abstract-stutter m i _ (rw at))
  Step-Simulates {m} (call_poll i at) v = inl (abstract-stutter m i _ (rw at))
  Step-Simulates {m} (lock_poll i at is_free) v = inl (abstract-stutter m i _ (rw at))
  Step-Simulates {m} (unlock_poll i at) v = inl (abstract-stutter m i _ (rw at))
  Step-Simulates {m} (fasync_changes queue) v = inr (System.fasync_changes queue)

  extend :
      {s t u : System U.User}
      → System.Reach U D clears s t
      → Simulates U D clears t u
      → System.Reach U D clears s u
  extend r (inl same) = rw same r
  extend r (inr st) = System.later r st

  -- Every state that the steps between mutex, wait queue and scheduler reach stands for a state that whole
  -- locked sections reach, with the same device and the same bytes written and delivered.
  pub Reach-abstract :
      (async : List ℕ)
      → {m : Machine U.User} → Reach U D clears (loaded U.User async) m
      → System.Reach U D clears (Reachable.loaded U.User async) (abstract m)
  Reach-abstract async start = System.start
  Reach-abstract async (later r st) =
      extend (Reach-abstract async r) (Step-Simulates st (Reach-Inv U D clears async r))
