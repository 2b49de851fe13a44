-- ===== src/Scull/Device/Follow.antt =====
-- `scull_follow` of code/examples/scull/main.c: what it adds to the chain.
use linux_drivers_study.Prelude.{
  ℕ, zero, suc, ◌+◌, ◌<◌, ◌≤◌, ◌≡◌, refl, arith, length, List, [], ◌∷◌, none, some, Bool, true,
  false, Bool-cases, inl, inr,
}
use linux_drivers_study.Scull.Device.{Qset, Followed, behind, follow}
use linux_drivers_study.Scull.Device.Shape.{AllQsets, block_at, count_qsets}

module _ (grants : ℕ → Bool) where
  -- Following the chain keeps its shape and every block, and reaches the item if it says so. It counts
  -- the items that it adds.
  pub record IsFollowed (quantum qset given : ℕ) (qs : List Qset) (n : ℕ) (r : Followed)
      : Type 0 where
    pub shaped : AllQsets quantum qset r.qsets
    pub reached : r.found ≡ true → n < length r.qsets
    pub lost : r.found ≡ false → length r.qsets ≤ n
    pub kept : (i s : ℕ) → block_at r.qsets i s ≡ block_at qs i s
    pub counted : count_qsets r.qsets + given ≡ count_qsets qs + r.given

  block_at-empty : (i s : ℕ) → block_at (none ∷ []) i s ≡ block_at [] i s
  block_at-empty zero s = refl
  block_at-empty (suc i) s = refl

  kept_behind :
      (q : Qset) (qs rs : List Qset)
      → ((i s : ℕ) → block_at rs i s ≡ block_at qs i s)
      → (i s : ℕ) → block_at (q ∷ rs) i s ≡ block_at (q ∷ qs) i s
  kept_behind q qs rs h zero s = refl
  kept_behind q qs rs h (suc i) s = h i s

  kept_new :
      (rs : List Qset)
      → ((i s : ℕ) → block_at rs i s ≡ block_at [] i s)
      → (i s : ℕ) → block_at (none ∷ rs) i s ≡ block_at [] i s
  kept_new rs h zero s = refl
  kept_new rs h (suc i) s = h i s

  -- One item more in front, the same in the chain before and after.
  behind-IsFollowed :
      (quantum qset given : ℕ) (q : Qset) (qs : List Qset) (n : ℕ) (r : Followed)
      → AllQsets quantum qset (q ∷ qs)
      → IsFollowed quantum qset given qs n r
      → IsFollowed quantum qset given (q ∷ qs) (suc n) (behind q r)
  behind-IsFollowed quantum qset given none qs n r h f = record {
    shaped = f.shaped;
    reached = λ e. omega (arith, f.reached e);
    lost = λ e. omega (arith, f.lost e);
    kept = kept_behind none qs r.qsets f.kept;
    counted = omega (arith, f.counted);
  }
  behind-IsFollowed quantum qset given (some bs) qs n r h f = record {
    shaped = (h.0, h.1, f.shaped);
    reached = λ e. omega (arith, f.reached e);
    lost = λ e. omega (arith, f.lost e);
    kept = kept_behind (some bs) qs r.qsets f.kept;
    counted = omega (arith, f.counted);
  }

  -- A new item at the end of the chain.
  new-IsFollowed :
      (quantum qset given n : ℕ) (r : Followed)
      → IsFollowed quantum qset (given + 1) [] n r
      → IsFollowed quantum qset given [] (suc n) (behind none r)
  new-IsFollowed quantum qset given n r f = record {
    shaped = f.shaped;
    reached = λ e. omega (arith, f.reached e);
    lost = λ e. omega (arith, f.lost e);
    kept = kept_new r.qsets f.kept;
    counted = omega (arith, f.counted);
  }

  refused-IsFollowed :
      (quantum qset given n : ℕ)
      → IsFollowed quantum qset given [] n (record { qsets = []; found = false; given = given })
  refused-IsFollowed quantum qset given n = record {
    shaped = tt;
    reached = λ e. absurd (cc);
    lost = λ e. omega arith;
    kept = λ i s. refl;
    counted = refl;
  }

  pub follow-IsFollowed :
      (quantum qset given : ℕ) (qs : List Qset) (n : ℕ)
      → AllQsets quantum qset qs
      → IsFollowed quantum qset given qs n (follow grants given qs n)
  unfolding follow
  follow-IsFollowed quantum qset given [] zero h = elim (Bool-cases (grants given)) [
    | inl yes_given ↦ rw yes_given (record {
      shaped = tt;
      reached = λ e. omega arith;
      lost = λ e. absurd (cc);
      kept = block_at-empty;
      counted = omega arith;
    })
    | inr no_more ↦ rw no_more (refused-IsFollowed quantum qset given zero)
  ]
  follow-IsFollowed quantum qset given [] (suc n) h = elim (Bool-cases (grants given)) [
    | inl yes_given ↦ rw yes_given (
        new-IsFollowed quantum qset given n (follow grants (given + 1) [] n)
          (follow-IsFollowed quantum qset (given + 1) [] n tt))
    | inr no_more ↦ rw no_more (refused-IsFollowed quantum qset given (suc n))
  ]
  follow-IsFollowed quantum qset given (q ∷ qs) zero h = record {
    shaped = h;
    reached = λ e. omega arith;
    lost = λ e. absurd (cc);
    kept = λ i s. refl;
    counted = refl;
  }
  follow-IsFollowed quantum qset given (none ∷ qs) (suc n) h =
      behind-IsFollowed quantum qset given none qs n _ h
        (follow-IsFollowed quantum qset given qs n h)
  follow-IsFollowed quantum qset given (some bs ∷ qs) (suc n) h =
      behind-IsFollowed quantum qset given (some bs) qs n _ h
        (follow-IsFollowed quantum qset given qs n h.2)
