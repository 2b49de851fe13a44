-- ===== src/BitMap/Set.antt =====
-- Setting and testing a bit of the map in code/NVMSIM/bit_map.h.
use linux_drivers_study.Prelude.{
  ℕ, zero, suc, ◌+◌, ◌*◌, ◌/◌, ◌%◌, ◌^◌, ◌<◌, ◌≡◌, ◌≢◌, ◌==◌, if◌then◌else◌, arith, refl, ap, sym,
  ◌∙◌, List, length, length-set, get_elem?, set, some, get_elem?-set_eq, get_elem?-set_ne,
  get_elem?-inside, Bool-cases, inl, inr,
}
use linux_drivers_study.BitMap.{set_bitmap, bool_one}
use linux_drivers_study.BitMap.Bitwise.{bits_and, bits_or, bits_and-zero}

-- A test of one digit, and the setting of one, at the lowest digit and above it.
test_lowest : (n w : ℕ) → bits_and (suc n) w (2 ^ 0) ≡ w % 2
unfolding bits_and
test_lowest n w = omega (arith, bits_and-zero n (w / 2))

halved : (k : ℕ) → 2 ^ suc k / 2 ≡ 2 ^ k
halved k = omega arith

test_above : (n w k : ℕ) → bits_and (suc n) w (2 ^ suc k) ≡ 2 * bits_and n (w / 2) (2 ^ k)
unfolding bits_and
test_above n w k = omega (arith, ap (bits_and n (w / 2)) (halved k))

set_above : (n w j : ℕ) → bits_or (suc n) w (2 ^ suc j) ≡ bits_or n (w / 2) (2 ^ j) * 2 + w % 2
unfolding bits_or
set_above n w j = omega (arith, ap (bits_or n (w / 2)) (halved j))

set_lowest : (n w : ℕ) → bits_or (suc n) w (2 ^ 0) ≡ bits_or n (w / 2) 0 * 2 + 1
unfolding bits_or
set_lowest n w = omega arith

test-or_nothing : (n k w : ℕ) → k < n → bits_and n (bits_or n w 0) (2 ^ k) ≡ bits_and n w (2 ^ k)
test-or_nothing zero k w h = absurd (omega arith)
test-or_nothing (suc n) zero w h =
    test_lowest n (bits_or (suc n) w 0) ∙ unfold bits_or in omega arith ∙ sym (test_lowest n w)
test-or_nothing (suc n) (suc k) w h =
    let rest : bits_or (suc n) w 0 / 2 ≡ bits_or n (w / 2) 0 = unfold bits_or in omega arith in
    test_above n (bits_or (suc n) w 0) k
    ∙ ap (λ v. 2 * bits_and n v (2 ^ k)) rest
    ∙ ap (λ v. 2 * v) (test-or_nothing n k (w / 2) (omega arith))
    ∙ sym (test_above n w k)

test-set :
    (n j k w : ℕ)
    → j < n
    → k < n
    → bits_and n (bits_or n w (2 ^ j)) (2 ^ k) ≡ (if j == k then 2 ^ k else bits_and n w (2 ^ k))
test-set zero j k w hj hk = absurd (omega arith)
test-set (suc n) zero zero w hj hk =
    test_lowest n (bits_or (suc n) w (2 ^ 0)) ∙ omega (arith, set_lowest n w)
test-set (suc n) zero (suc k) w hj hk =
    let rest : bits_or (suc n) w (2 ^ 0) / 2 ≡ bits_or n (w / 2) 0 =
      omega (arith, set_lowest n w) in
    test_above n (bits_or (suc n) w (2 ^ 0)) k
    ∙ ap (λ v. 2 * bits_and n v (2 ^ k)) rest
    ∙ ap (λ v. 2 * v) (test-or_nothing n k (w / 2) (omega arith))
    ∙ ground (arith, test_above n w k)
test-set (suc n) (suc j) zero w hj hk =
    test_lowest n (bits_or (suc n) w (2 ^ suc j)) ∙ ground (arith, set_above n w j, test_lowest n w)
test-set (suc n) (suc j) (suc k) w hj hk =
    let rest : bits_or (suc n) w (2 ^ suc j) / 2 ≡ bits_or n (w / 2) (2 ^ j) =
      omega (arith, set_above n w j) in
    test_above n (bits_or (suc n) w (2 ^ suc j)) k
    ∙ ap (λ v. 2 * bits_and n v (2 ^ k)) rest
    ∙ ground (arith, test-set n j k (w / 2) (omega arith) (omega arith), test_above n w k)

module _ (words : List ℕ) (p q w : ℕ) (at : get_elem? words (p / 32) ≡ some w)
    (inside : p < length words * 32) where
  after : List ℕ
  after = set words (p / 32) (bits_or 32 w (2 ^ (p % 32)))

  test_same_word :
      p / 32 ≡ q / 32
      → bool_one after q ≡ (if p == q then some (2 ^ (q % 32)) else bool_one words q)
  unfolding bool_one after
  test_same_word same = ground (
    arith,
    get_elem?-set_eq words (p / 32) (bits_or 32 w (2 ^ (p % 32))) (omega arith),
    test-set 32 (p % 32) (q % 32) w (omega arith) (omega arith),
  )

  test_other_word :
      p / 32 ≢ q / 32
      → bool_one after q ≡ (if p == q then some (2 ^ (q % 32)) else bool_one words q)
  unfolding bool_one after
  test_other_word other =
      ground (arith, get_elem?-set_ne words (p / 32) (q / 32) (bits_or 32 w (2 ^ (p % 32))) other)

  set_lem : set_bitmap words p ≡ some after
  unfolding set_bitmap after
  set_lem = rw (at, set_bitmap) refl

-- Setting a position of the map succeeds, and a test of any position then finds what it found before, but
-- for the position that was set, where it finds that digit alone.
pub bool_one-set_bitmap :
    (words : List ℕ) (p q : ℕ)
    → p < length words * 32
    → (words' : List ℕ) × (set_bitmap words p ≡ some words')
      × (length words' ≡ length words)
      × (bool_one words' q ≡ (if p == q then some (2 ^ (q % 32)) else bool_one words q))
unfolding after
bool_one-set_bitmap words p q inside =
    let (w, at) = get_elem?-inside words (p / 32) (omega arith) in
    (
      after words p q w at inside,
      set_lem words p q w at inside,
      length-set words (p / 32) (bits_or 32 w (2 ^ (p % 32))),
      elim (Bool-cases (p / 32 == q / 32)) [
        | inl same ↦ test_same_word words p q w at inside (ground (arith, same))
        | inr other ↦ test_other_word words p q w at inside (λ e. ground (arith, other, e))
      ],
    )
