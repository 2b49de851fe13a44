-- ===== src/Scull/Device/Locate.antt =====
-- Which entry of which quantum set of code/examples/scull/main.c a position in the device is.
use linux_drivers_study.Prelude.{ℕ, ◌+◌, ◌*◌, ◌/◌, ◌%◌, ◌^◌, ◌<◌, ◌≡◌, arith, some, ◌∙◌}
use native.Mathlib.Nat.{
  mod-lt, div-lt_iff_lt-mul, mul-add-div_right, div-eq_of_lt, mod-eq-sub-div-mul, mod-add-div,
  mul_comm, mul-le-mul_right,
}
use mathlib.Core.Path.{subst}
use linux_drivers_study.Scull.Device.{Place, locate}

div-mod : (i m r : ℕ) → r < m → ((i * m + r) / m ≡ i) × ((i * m + r) % m ≡ r)
div-mod i m r h =
    let d : (i * m + r) / m ≡ i =
      mul-add-div_right (omega arith) i r ∙ rw (div-eq_of_lt h) (omega arith) in
    (d, mod-eq-sub-div-mul (i * m + r) m ∙ rw d (omega arith))

-- The position of a place.
abbrev pub position : ℕ → ℕ → Place → ℕ
position quantum qset at = at.item * (quantum * qset) + (at.s_pos * quantum + at.q_pos)

abbrev pub IsInside : ℕ → ℕ → Place → Type 0
IsInside quantum qset at = (at.item < 2 ^ 31) × (at.s_pos < qset) × (at.q_pos < quantum)

below_itemsize : (quantum qset s q : ℕ) → s < qset → q < quantum → s * quantum + q < quantum * qset
below_itemsize quantum qset s q hs hq =
    omega (arith, mul-le-mul_right {m = s + 1} {n = qset} quantum (omega arith))

pub locate-position :
    (quantum qset : ℕ) (at : Place)
    → quantum * qset < 2 ^ 31
    → IsInside quantum qset at
    → locate quantum qset (position quantum qset at) ≡ some at
unfolding locate
locate-position quantum qset at small h =
    let r = at.s_pos * quantum + at.q_pos in
    let below = below_itemsize quantum qset at.s_pos at.q_pos h.1 h.2 in
    let outer = div-mod at.item (quantum * qset) r below in
    let inner = div-mod at.s_pos quantum at.q_pos h.2 in
    rw (outer.0, outer.1, inner.0, inner.1) (ground (arith, below, h, small))

pub position-locate :
    (quantum qset a : ℕ) (at : Place)
    → locate quantum qset a ≡ some at
    → (a ≡ position quantum qset at) × IsInside quantum qset at
unfolding locate
position-locate quantum qset a at e =
    let size = quantum * qset in
    let some_size : (0 < quantum) × (0 < size) = ground (arith, e) in
    let rest = mod-lt a {m = size} some_size.1 in
    let fits = (div-lt_iff_lt-mul {k = quantum} {x = a % size} {y = qset} some_size.0).1 in
    let found : Place = record {
      item = a / size;
      s_pos = a % size / quantum;
      q_pos = a % size % quantum;
    } in
    let same : found ≡ at = ground (arith, e) in
    let small : a / size < 2 ^ 31 = ground (arith, e) in
    subst (λ (p : Place). (a ≡ position quantum qset p) × IsInside quantum qset p) same
      (
        omega (
          arith,
          mod-add-div a size,
          mod-add-div (a % size) quantum,
          mul_comm size (a / size),
          mul_comm quantum (a % size / quantum),
        ),
        (small, fits (omega (arith, rest, mul_comm quantum qset)), mod-lt (a % size) some_size.0),
      )

-- Positions up to 2 ^ 31 quantum sets have a place.
pub locate-inside :
    (quantum qset a : ℕ)
    → 0 < quantum
    → 0 < qset
    → quantum * qset < 2 ^ 31
    → a / (quantum * qset) < 2 ^ 31
    → (at : Place) × (locate quantum qset a ≡ some at)
unfolding locate
locate-inside quantum qset a hq hs small h =
    let some_size : 0 < quantum * qset =
      omega (arith, mul-le-mul_right {m = 1} {n = quantum} qset (omega arith)) in
    let size = quantum * qset in
    (
      record { item = a / size; s_pos = a % size / quantum; q_pos = a % size % quantum },
      ground (arith, some_size, small, h),
    )
