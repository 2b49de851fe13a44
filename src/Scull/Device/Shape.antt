-- ===== src/Scull/Device/Shape.antt =====
-- The shape of the chain of quantum sets of code/examples/scull/main.c: which block stands where, and how
-- many blocks of memory the device holds.
use linux_drivers_study.Prelude.{
  ℕ, zero, suc, ◌+◌, ◌*◌, ◌^◌, ◌<◌, ◌≡◌, ◌≢◌, refl, ap, arith, length, List, [], ◌∷◌, Option, none,
  some, get_elem?, set, replicate, get_elem?-set_eq, get_elem?-set_ne,
}
use linux_drivers_study.Prelude.Bytes.{Bytes}
use linux_drivers_study.Scull.Device.{Qset, Device}

-- Every block has the length of a quantum, and every array `qset` entries.
abbrev pub AllBlocks : ℕ → List (Option Bytes) → Type 0
AllBlocks quantum [] = Unit
AllBlocks quantum (none ∷ bs) = AllBlocks quantum bs
AllBlocks quantum (some b ∷ bs) = (length b ≡ quantum) × AllBlocks quantum bs

abbrev pub AllQsets : ℕ → ℕ → List Qset → Type 0
AllQsets quantum qset [] = Unit
AllQsets quantum qset (none ∷ qs) = AllQsets quantum qset qs
AllQsets quantum qset (some bs ∷ qs) =
    (length bs ≡ qset) × AllBlocks quantum bs × AllQsets quantum qset qs

-- A quantum set holds at least one byte, and its size is an `int`.
pub record IsValid (d : Device) : Type 0 where
  pub quantum_positive : 0 < d.quantum
  pub qset_positive : 0 < d.qset
  pub itemsize_int : d.quantum * d.qset < 2 ^ 31
  pub shaped : AllQsets d.quantum d.qset d.qsets

-- The block at this entry of this array; `none` is a hole.
abbrev pub entry_at : List (Option Bytes) → ℕ → Option Bytes
entry_at bs s = elim (get_elem? bs s) [ none ↦ none | some e ↦ e ]

abbrev pub block_at : List Qset → ℕ → ℕ → Option Bytes
block_at qs i s = elim (get_elem? qs i) [
  | none ↦ none
  | some none ↦ none
  | some (some bs) ↦ entry_at bs s
]

-- How many blocks of memory are allocated: the items, their arrays, their quanta.
abbrev pub count_blocks : List (Option Bytes) → ℕ
count_blocks [] = 0
count_blocks (none ∷ bs) = count_blocks bs
count_blocks (some b ∷ bs) = suc (count_blocks bs)

abbrev pub count_qsets : List Qset → ℕ
count_qsets [] = 0
count_qsets (none ∷ qs) = suc (count_qsets qs)
count_qsets (some bs ∷ qs) = suc (suc (count_blocks bs + count_qsets qs))

-- Entries of an array.
pub AllBlocks-get :
    (quantum : ℕ) (bs : List (Option Bytes)) (s : ℕ) (b : Bytes)
    → AllBlocks quantum bs
    → get_elem? bs s ≡ some (some b)
    → length b ≡ quantum
AllBlocks-get quantum [] s b h e = absurd (cc)
AllBlocks-get quantum (none ∷ bs) zero b h e = absurd (cc)
AllBlocks-get quantum (some x ∷ bs) zero b h e = ground (arith, h, e)
AllBlocks-get quantum (none ∷ bs) (suc s) b h e = AllBlocks-get quantum bs s b h e
AllBlocks-get quantum (some x ∷ bs) (suc s) b h e = AllBlocks-get quantum bs s b h.1 e

pub AllBlocks-set :
    (quantum : ℕ) (bs : List (Option Bytes)) (s : ℕ) (b : Bytes)
    → AllBlocks quantum bs
    → length b ≡ quantum
    → AllBlocks quantum (set bs s (some b))
AllBlocks-set quantum [] s b h e = tt
AllBlocks-set quantum (none ∷ bs) zero b h e = (e, h)
AllBlocks-set quantum (some x ∷ bs) zero b h e = (e, h.1)
AllBlocks-set quantum (none ∷ bs) (suc s) b h e = AllBlocks-set quantum bs s b h e
AllBlocks-set quantum (some x ∷ bs) (suc s) b h e = (h.0, AllBlocks-set quantum bs s b h.1 e)

pub AllBlocks-replicate : (quantum n : ℕ) → AllBlocks quantum (replicate n none)
unfolding replicate
AllBlocks-replicate quantum zero = tt
AllBlocks-replicate quantum (suc n) = AllBlocks-replicate quantum n

pub entry_at-replicate : (n s : ℕ) → entry_at (replicate n none) s ≡ none
unfolding replicate
entry_at-replicate zero s = refl
entry_at-replicate (suc n) zero = refl
entry_at-replicate (suc n) (suc s) = entry_at-replicate n s

pub count_blocks-replicate : (n : ℕ) → count_blocks (replicate n none) ≡ 0
unfolding replicate
count_blocks-replicate zero = refl
count_blocks-replicate (suc n) = count_blocks-replicate n

-- A block more where there was none, and as many where there was one.
pub count_blocks-set :
    (bs : List (Option Bytes)) (s : ℕ) (e : Option Bytes) (b : Bytes)
    → get_elem? bs s ≡ some e
    → count_blocks (set bs s (some b))
      ≡ elim e [ none ↦ suc (count_blocks bs) | some old ↦ count_blocks bs ]
count_blocks-set [] s e b h = absurd (cc)
count_blocks-set (none ∷ bs) zero none b h = refl
count_blocks-set (none ∷ bs) zero (some x) b h = absurd (cc)
count_blocks-set (some y ∷ bs) zero none b h = absurd (cc)
count_blocks-set (some y ∷ bs) zero (some x) b h = refl
count_blocks-set (none ∷ bs) (suc s) none b h = count_blocks-set bs s none b h
count_blocks-set (none ∷ bs) (suc s) (some x) b h = count_blocks-set bs s (some x) b h
count_blocks-set (some y ∷ bs) (suc s) none b h = ap suc (count_blocks-set bs s none b h)
count_blocks-set (some y ∷ bs) (suc s) (some x) b h = ap suc (count_blocks-set bs s (some x) b h)

-- Items of the chain.
pub AllQsets-get :
    (quantum qset : ℕ) (qs : List Qset) (i : ℕ) (bs : List (Option Bytes))
    → AllQsets quantum qset qs
    → get_elem? qs i ≡ some (some bs)
    → (length bs ≡ qset) × AllBlocks quantum bs
AllQsets-get quantum qset [] i bs h e = absurd (cc)
AllQsets-get quantum qset (none ∷ qs) zero bs h e = absurd (cc)
AllQsets-get quantum qset (some x ∷ qs) zero bs h e = let same : bs ≡ x = cc in rw same (h.0, h.1)
AllQsets-get quantum qset (none ∷ qs) (suc i) bs h e = AllQsets-get quantum qset qs i bs h e
AllQsets-get quantum qset (some x ∷ qs) (suc i) bs h e = AllQsets-get quantum qset qs i bs h.2 e

pub AllQsets-set :
    (quantum qset : ℕ) (qs : List Qset) (i : ℕ) (bs : List (Option Bytes))
    → AllQsets quantum qset qs
    → length bs ≡ qset
    → AllBlocks quantum bs
    → AllQsets quantum qset (set qs i (some bs))
AllQsets-set quantum qset [] i bs h e a = tt
AllQsets-set quantum qset (none ∷ qs) zero bs h e a = (e, a, h)
AllQsets-set quantum qset (some x ∷ qs) zero bs h e a = (e, a, h.2)
AllQsets-set quantum qset (none ∷ qs) (suc i) bs h e a = AllQsets-set quantum qset qs i bs h e a
AllQsets-set quantum qset (some x ∷ qs) (suc i) bs h e a =
    (h.0, h.1, AllQsets-set quantum qset qs i bs h.2 e a)

-- How many blocks one item stands for.
abbrev pub weight : Qset → ℕ
weight none = 1
weight (some bs) = suc (suc (count_blocks bs))

pub count_qsets-set :
    (qs : List Qset) (i : ℕ) (q q' : Qset)
    → get_elem? qs i ≡ some q
    → count_qsets (set qs i q') + weight q ≡ count_qsets qs + weight q'
count_qsets-set [] i q q' h = absurd (cc)
count_qsets-set (none ∷ qs) zero none none h = refl
count_qsets-set (none ∷ qs) zero none (some bs) h = omega arith
count_qsets-set (none ∷ qs) zero (some bs) q' h = absurd (cc)
count_qsets-set (some x ∷ qs) zero none q' h = absurd (cc)
count_qsets-set (some x ∷ qs) zero (some bs) none h = let e : bs ≡ x = cc in rw e (omega arith)
count_qsets-set (some x ∷ qs) zero (some bs) (some cs) h = let e : bs ≡ x = cc in rw e (omega arith)
count_qsets-set (none ∷ qs) (suc i) q q' h = omega (arith, count_qsets-set qs i q q' h)
count_qsets-set (some x ∷ qs) (suc i) q q' h = omega (arith, count_qsets-set qs i q q' h)

-- What is found after an item is replaced by an array.
pub inside_of : (qs : List Qset) (i : ℕ) (q : Qset) → get_elem? qs i ≡ some q → i < length qs
inside_of [] i q h = absurd (cc)
inside_of (x ∷ qs) zero q h = omega arith
inside_of (x ∷ qs) (suc i) q h = omega (arith, inside_of qs i q h)

pub block_at-set_same :
    (qs : List Qset) (i s : ℕ) (q : Qset) (bs : List (Option Bytes))
    → get_elem? qs i ≡ some q
    → block_at (set qs i (some bs)) i s ≡ entry_at bs s
block_at-set_same qs i s q bs h =
    rw (block_at, get_elem?-set_eq qs i (some bs) (inside_of qs i q h)) refl

pub block_at-set_other :
    (qs : List Qset) (i j s : ℕ) (q : Qset) → i ≢ j → block_at (set qs i q) j s ≡ block_at qs j s
block_at-set_other qs i j s q ne = rw (block_at, get_elem?-set_ne qs i j q ne) refl

-- Every block that is found has the length of a quantum.
entry_at-length :
    (quantum : ℕ) (bs : List (Option Bytes)) (s : ℕ) (b : Bytes)
    → AllBlocks quantum bs
    → entry_at bs s ≡ some b
    → length b ≡ quantum
entry_at-length quantum [] s b h e = absurd (cc)
entry_at-length quantum (none ∷ bs) zero b h e = absurd (cc)
entry_at-length quantum (some x ∷ bs) zero b h e = ground (arith, h, e)
entry_at-length quantum (none ∷ bs) (suc s) b h e = entry_at-length quantum bs s b h e
entry_at-length quantum (some x ∷ bs) (suc s) b h e = entry_at-length quantum bs s b h.1 e

pub block_at-length :
    (quantum qset : ℕ) (qs : List Qset) (i s : ℕ) (b : Bytes)
    → AllQsets quantum qset qs
    → block_at qs i s ≡ some b
    → length b ≡ quantum
block_at-length quantum qset [] i s b h e = absurd (cc)
block_at-length quantum qset (none ∷ qs) zero s b h e = absurd (cc)
block_at-length quantum qset (some x ∷ qs) zero s b h e = entry_at-length quantum x s b h.1 e
block_at-length quantum qset (none ∷ qs) (suc i) s b h e = block_at-length quantum qset qs i s b h e
block_at-length quantum qset (some x ∷ qs) (suc i) s b h e =
    block_at-length quantum qset qs i s b h.2 e
