-- ===== src/Prelude/Bytes.antt =====
-- Byte arrays: ranges that are read and written, with a fault for an access out of bounds.
use Prim.Native.Nat.{ℕ, zero, suc, ◌+◌, ◌-◌, ◌≤◌, ◌<◌}
use mathlib.Core.Path.{◌≡◌, refl, ap, ◌∙◌, sym}
use mathlib.Core.Logic.{◌⊎◌, inl, inr}
use mathlib.Core.List.{List, [], ◌∷◌, ◌++◌}
use mathlib.Core.Option.{Option, none, some}
use native.Mathlib.Omega.{arith}
use linux_drivers_study.Prelude.Tests.{leb, if◌then◌else◌, le→leb}
use linux_drivers_study.Prelude.Lists.{
  length, take, drop, get_elem?, length-take, length-drop, drop-take, take-nil, take_all,
  drop-append, take-take, drop-drop,
}

abbrev pub Bytes : Type 0
Bytes = List ℕ

-- The `n` bytes of `m` from `p` on.
abbrev pub slice : Bytes → ℕ → ℕ → Bytes
slice m p n = take n (drop p m)

-- `m` with `bs` written at `p`; what falls outside is dropped.
unfoldable pub splice : Bytes → ℕ → Bytes → Bytes
splice [] p bs = []
splice (x ∷ m) zero [] = x ∷ m
splice (x ∷ m) zero (b ∷ bs) = b ∷ splice m zero bs
splice (x ∷ m) (suc p) bs = x ∷ splice m p bs

-- `none` is an access outside the array, which C leaves undefined.
unfoldable pub load : Bytes → ℕ → ℕ → Option Bytes
load m p n = if leb (p + n) (length m) then some (slice m p n) else none

unfoldable pub store : Bytes → ℕ → Bytes → Option Bytes
store m p bs = if leb (p + length bs) (length m) then some (splice m p bs) else none

pub load_inside : (m : Bytes) (p n : ℕ) → p + n ≤ length m → load m p n ≡ some (slice m p n)
unfolding load
load_inside m p n h = rw (le→leb _ _ h)

pub store_inside :
    (m : Bytes) (p : ℕ) (bs : Bytes)
    → p + length bs ≤ length m
    → store m p bs ≡ some (splice m p bs)
unfolding store
store_inside m p bs h = rw (le→leb _ _ h)

pub length-splice : (m : Bytes) (p : ℕ) (bs : Bytes) → length (splice m p bs) ≡ length m
unfolding splice
length-splice [] p bs = refl
length-splice (x ∷ m) zero [] = refl
length-splice (x ∷ m) zero (b ∷ bs) = ap suc (length-splice m zero bs)
length-splice (x ∷ m) (suc p) bs = ap suc (length-splice m p bs)

pub length-slice : (m : Bytes) (p n : ℕ) → p + n ≤ length m → length (slice m p n) ≡ n
length-slice m p n h = omega (arith, length-take n (drop p m), length-drop p m)

pub take-splice_below :
    (m : Bytes) (p k : ℕ) (bs : Bytes) → k ≤ p → take k (splice m p bs) ≡ take k m
unfolding splice
take-splice_below m p zero bs h = refl
take-splice_below [] p (suc k) bs h = refl
take-splice_below (x ∷ m) zero (suc k) bs h = absurd (omega arith)
take-splice_below (x ∷ m) (suc p) (suc k) bs h =
    ap (λ l. x ∷ l) (take-splice_below m p k bs (omega arith))

pub drop-splice_above :
    (m : Bytes) (p k : ℕ) (bs : Bytes) → p + length bs ≤ k → drop k (splice m p bs) ≡ drop k m
unfolding splice
drop-splice_above [] p k bs h = refl
drop-splice_above (x ∷ m) zero k [] h = refl
drop-splice_above (x ∷ m) zero zero (b ∷ bs) h = absurd (omega arith)
drop-splice_above (x ∷ m) zero (suc k) (b ∷ bs) h = drop-splice_above m zero k bs (omega arith)
drop-splice_above (x ∷ m) (suc p) zero bs h = absurd (omega arith)
drop-splice_above (x ∷ m) (suc p) (suc k) bs h = drop-splice_above m p k bs (omega arith)

-- The bytes just written are read back.
pub slice-splice_self :
    (m : Bytes) (p : ℕ) (bs : Bytes)
    → p + length bs ≤ length m
    → slice (splice m p bs) p (length bs) ≡ bs
unfolding splice
slice-splice_self [] zero [] h = refl
slice-splice_self [] zero (b ∷ bs) h = absurd (omega arith)
slice-splice_self [] (suc p) bs h = absurd (omega arith)
slice-splice_self (x ∷ m) zero [] h = refl
slice-splice_self (x ∷ m) zero (b ∷ bs) h =
    ap (λ l. b ∷ l) (slice-splice_self m zero bs (omega arith))
slice-splice_self (x ∷ m) (suc p) bs h = slice-splice_self m p bs (omega arith)

pub slice-as-drop : (m : Bytes) (q n : ℕ) → slice m q n ≡ drop q (take (q + n) m)
slice-as-drop m q n = let e : q + n - q ≡ n = omega arith in rw (drop-take q (q + n) m, e) refl

-- A range that the write does not touch keeps its bytes.
pub slice-splice_other :
    (m : Bytes) (p q n : ℕ) (bs : Bytes)
    → (q + n ≤ p) ⊎ (p + length bs ≤ q)
    → slice (splice m p bs) q n ≡ slice m q n
slice-splice_other m p q n bs (inl h) =
    slice-as-drop (splice m p bs) q n
    ∙ ap (drop q) (take-splice_below m p (q + n) bs h)
    ∙ sym (slice-as-drop m q n)
slice-splice_other m p q n bs (inr h) = ap (take n) (drop-splice_above m p q bs h)

-- Up to the end of a write: the old bytes below it, then what was written.
pub take-splice_end :
    (m : Bytes) (p : ℕ) (bs : Bytes)
    → p + length bs ≤ length m
    → take (p + length bs) (splice m p bs) ≡ take p m ++ bs
unfolding splice
take-splice_end [] zero [] h = rw (take-nil ℕ)
take-splice_end [] zero (b ∷ bs) h = absurd (omega arith)
take-splice_end [] (suc p) bs h = absurd (omega arith)
take-splice_end (x ∷ m) zero [] h = refl
take-splice_end (x ∷ m) zero (b ∷ bs) h =
    let e : 0 + suc (length bs) ≡ suc (0 + length bs) = omega arith in
    rw e (ap (λ l. b ∷ l) (take-splice_end m zero bs (omega arith)))
take-splice_end (x ∷ m) (suc p) bs h =
    let e : suc p + length bs ≡ suc (p + length bs) = omega arith in
    rw e (ap (λ l. x ∷ l) (take-splice_end m p bs (omega arith)))

pub store_outside :
    (m : Bytes) (p : ℕ) (bs : Bytes) → length m < p + length bs → store m p bs ≡ none
unfolding store
store_outside m p bs h = ground arith

-- The whole of an array.
pub slice_all : (m : Bytes) (n : ℕ) → length m ≡ n → slice m 0 n ≡ m
slice_all m n e = take_all n m (omega arith)

pub splice_all : (m bs : Bytes) → length m ≡ length bs → splice m 0 bs ≡ bs
unfolding splice
splice_all [] [] h = refl
splice_all [] (b ∷ bs) h = absurd (omega arith)
splice_all (x ∷ m) [] h = absurd (omega arith)
splice_all (x ∷ m) (b ∷ bs) h = ap (λ l. b ∷ l) (splice_all m bs (omega arith))

-- A range that a write ends in: the old bytes below the write, then what was written.
pub slice-splice_end :
    (m : Bytes) (p q : ℕ) (bs : Bytes)
    → q ≤ p
    → p + length bs ≤ length m
    → slice (splice m p bs) q (p + length bs - q) ≡ slice m q (p - q) ++ bs
slice-splice_end m p q bs h fits =
    let e : q + (p + length bs - q) ≡ p + length bs = omega arith in
    slice-as-drop (splice m p bs) q (p + length bs - q)
    ∙ rw e (ap (drop q) (take-splice_end m p bs fits))
    ∙ drop-append q (take p m) bs (omega (arith, length-take p m))
    ∙ ap (λ (l : Bytes). l ++ bs) (drop-take q p m)

-- The first and the last bytes of a range.
pub take-slice : (m : Bytes) (p n k : ℕ) → n ≤ k → take n (slice m p k) ≡ slice m p n
take-slice m p n k h = take-take n k (drop p m) h

pub drop-slice : (m : Bytes) (p n k : ℕ) → drop n (slice m p k) ≡ slice m (p + n) (k - n)
drop-slice m p n k = rw (drop-take n k (drop p m), drop-drop n p m) refl

-- Single bytes of an array that was written.
pub get_elem?-splice_in :
    (m : Bytes) (p i : ℕ) (bs : Bytes)
    → p + i < length m
    → i < length bs
    → get_elem? (splice m p bs) (p + i) ≡ get_elem? bs i
unfolding splice
get_elem?-splice_in [] p i bs h k = absurd (omega arith)
get_elem?-splice_in (x ∷ m) zero i [] h k = absurd (omega arith)
get_elem?-splice_in (x ∷ m) zero zero (b ∷ bs) h k = refl
get_elem?-splice_in (x ∷ m) zero (suc i) (b ∷ bs) h k =
    let e : 0 + suc i ≡ suc (0 + i) = omega arith in
    rw e (get_elem?-splice_in m zero i bs (omega arith) (omega arith))
get_elem?-splice_in (x ∷ m) (suc p) i bs h k =
    let e : suc p + i ≡ suc (p + i) = omega arith in
    rw e (get_elem?-splice_in m p i bs (omega arith) k)

pub get_elem?-splice_out :
    (m : Bytes) (p i : ℕ) (bs : Bytes)
    → (i < p) ⊎ (p + length bs ≤ i)
    → get_elem? (splice m p bs) i ≡ get_elem? m i
unfolding splice
get_elem?-splice_out [] p i bs h = refl
get_elem?-splice_out (x ∷ m) zero i [] h = refl
get_elem?-splice_out (x ∷ m) zero zero (b ∷ bs) h = absurd (ground (arith, h))
get_elem?-splice_out (x ∷ m) zero (suc i) (b ∷ bs) h =
    get_elem?-splice_out m zero i bs (ground (arith, h))
get_elem?-splice_out (x ∷ m) (suc p) zero bs h = refl
get_elem?-splice_out (x ∷ m) (suc p) (suc i) bs h =
    get_elem?-splice_out m p i bs (ground (arith, h))

pub get_elem?-slice :
    (m : Bytes) (p n i : ℕ) → i < n → get_elem? (slice m p n) i ≡ get_elem? m (p + i)
get_elem?-slice [] p zero i h = absurd (omega arith)
get_elem?-slice [] zero (suc n) i h = refl
get_elem?-slice [] (suc p) (suc n) i h = refl
get_elem?-slice (x ∷ m) p zero i h = absurd (omega arith)
get_elem?-slice (x ∷ m) zero (suc n) zero h = refl
get_elem?-slice (x ∷ m) zero (suc n) (suc i) h =
    let e : 0 + suc i ≡ suc (0 + i) = omega arith in rw e (get_elem?-slice m zero n i (omega arith))
get_elem?-slice (x ∷ m) (suc p) (suc n) i h =
    let e : suc p + i ≡ suc (p + i) = omega arith in rw e (get_elem?-slice m p (suc n) i h)
