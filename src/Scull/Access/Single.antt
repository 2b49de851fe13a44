-- ===== src/Scull/Access/Single.antt =====
-- The single-open device of code/examples/scull/access.c, at the grain of its atomic operations.
use linux_drivers_study.Prelude.{ℕ, suc, ◌+◌, ◌≤◌, ◌≡◌, arith, true, false, ◌==◌}
use linux_drivers_study.Prelude.Int.{ℤ, pos, ◌+ℤ◌, pos_part, neg_part}
use linux_drivers_study.Scull.Access.{try_open, give_back}

-- The counter, how many files are open, and how many failing opens have yet to give back what they took.
pub record Door : Type 0 where
  pub available : ℤ
  pub held : ℕ
  pub failing : ℕ

-- The steps of any number of processes.
pub data Step : Door → Door → Type 0 where
  enters :
      {d : Door}
      → (try_open d.available).0 ≡ true
      → Step d (record d { available = (try_open d.available).1; held = suc d.held })
  misses :
      {d : Door}
      → (try_open d.available).0 ≡ false
      → Step d (record d { available = (try_open d.available).1; failing = suc d.failing })
  gives_up :
      {d : Door} {n : ℕ}
      → d.failing ≡ suc n
      → Step d (record d { available = give_back d.available; failing = n })
  leaves :
      {d : Door} {n : ℕ}
      → d.held ≡ suc n
      → Step d (record d { available = give_back d.available; held = n })

pub data Reach : Door → Type 0 where
  start : Reach (record { available = pos 1; held = 0; failing = 0 })
  after : {d d' : Door} → Reach d → Step d d' → Reach d'

-- What is available, held and taken by failing opens adds up to one.
abbrev pub AddsUp : Door → Type 0
AddsUp d = (pos_part d.available + d.held + d.failing ≡ 1 + neg_part d.available) × (d.held ≤ 1)

Step-AddsUp : {d d' : Door} → Step d d' → AddsUp d → AddsUp d'
unfolding try_open give_back ◌+ℤ◌
Step-AddsUp (enters got) h = ground (arith, got, h)
Step-AddsUp (misses failed) h = ground (arith, failed, h)
Step-AddsUp (gives_up e) h = ground (arith, e, h)
Step-AddsUp (leaves e) h = ground (arith, e, h)

Reach-AddsUp : {d : Door} → Reach d → AddsUp d
Reach-AddsUp start = omega arith
Reach-AddsUp (after r s) = Step-AddsUp s (Reach-AddsUp r)

next_open : (d : Door) → AddsUp d → (try_open d.available).0 ≡ (d.held + d.failing == 0)
unfolding try_open ◌+ℤ◌
next_open d h = ground (arith, h)

-- However the opens and releases of the single-open device interleave, down to the atomic operations, at
-- most one file is open, and the next open gets the device exactly when none is open and no failing open
-- has yet to give back what it took.
pub single_open :
    (d : Door) → Reach d → (d.held ≤ 1) × ((try_open d.available).0 ≡ (d.held + d.failing == 0))
single_open d r = let h = Reach-AddsUp r in (h.1, next_open d h)
