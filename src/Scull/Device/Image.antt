-- ===== src/Scull/Device/Image.antt =====
-- The bytes that a device of code/examples/scull/main.c holds, by their position.
use linux_drivers_study.Prelude.{
  ℕ, ◌+◌, ◌*◌, ◌^◌, ◌<◌, ◌≤◌, ◌≡◌, ◌≢◌, ◌⊎◌, inl, inr, refl, arith, length, Option, none, some,
  Option-cases, get_elem?, ◌∙◌, sym,
}
use native.Mathlib.Decide.{ℕ_discrete}
use linux_drivers_study.Prelude.Bytes.{Bytes, splice, get_elem?-splice_in, get_elem?-splice_out}
use linux_drivers_study.Scull.Device.{Device, Kmalloc, Place, locate}
use linux_drivers_study.Scull.Device.Shape.{IsValid, block_at, block_at-length}
use linux_drivers_study.Scull.Device.Locate.{position, locate-position, position-locate}
use linux_drivers_study.Scull.Device.Touch.{Grown, Touched, old_block}

abbrev pub byte_in : Device → Place → Option ℕ
byte_in d at = elim (block_at d.qsets at.item at.s_pos) [
  | none ↦ none
  | some b ↦ get_elem? b at.q_pos
]

-- `none`: a hole, or no position at all.
unfoldable pub byte_at : Device → ℕ → Option ℕ
byte_at d a = elim (locate d.quantum d.qset a) [ none ↦ none | some at ↦ byte_in d at ]

pub byte_at-place :
    (d : Device) (a : ℕ) (at : Place)
    → locate d.quantum d.qset a ≡ some at
    → byte_at d a ≡ byte_in d at
unfolding byte_at
byte_at-place d a at e = rw (byte_at, e) refl

byte_at-nowhere : (d : Device) (a : ℕ) → locate d.quantum d.qset a ≡ none → byte_at d a ≡ none
unfolding byte_at
byte_at-nowhere d a e = rw (byte_at, e) refl

pub some_or_none : (x : ℕ) → ¬ (some x ≡ none)
some_or_none x e = absurd (cc)

pub byte_at-block :
    (d : Device) (a : ℕ) (at : Place) (b : Bytes)
    → locate d.quantum d.qset a ≡ some at
    → block_at d.qsets at.item at.s_pos ≡ some b
    → byte_at d a ≡ get_elem? b at.q_pos
byte_at-block d a at b e h = byte_at-place d a at e ∙ rw (byte_in, h) refl

pub byte_at-Grown : (d d' : Device) (given a : ℕ) → Grown d d' given → byte_at d' a ≡ byte_at d a
unfolding byte_at
byte_at-Grown d d' given a g = elim (Option-cases (locate d.quantum d.qset a)) [
  | inl e ↦ rw (byte_at, g.quantum_kept, g.qset_kept, e) refl
  | inr (at, e) ↦
      rw (byte_at, g.quantum_kept, g.qset_kept, e, byte_in, g.kept at.item at.s_pos) refl
]

-- The place `i` bytes further on in the same block.
abbrev pub further : Place → ℕ → Place
further at i = record at { q_pos = at.q_pos + i }

pub locate-further :
    (quantum qset a i : ℕ) (at : Place)
    → quantum * qset < 2 ^ 31
    → locate quantum qset a ≡ some at
    → at.q_pos + i < quantum
    → locate quantum qset (a + i) ≡ some (further at i)
locate-further quantum qset a i at small e h =
    let p = position-locate quantum qset a at e in
    let moved : a + i ≡ position quantum qset (further at i) = omega (arith, p.0) in
    rw moved (locate-position quantum qset (further at i) small (p.1.0, p.1.1, h))

-- A write at `f`, of `bs` that fit in the block there.
module _ (k : Kmalloc) (whole : (n : ℕ) → length (k.block n) ≡ n) (d d' : Device) (at : Place)
    (given f : ℕ) (bs : Bytes) (v : IsValid d) (t : Touched k d d' at given bs)
    (located : locate d.quantum d.qset f ≡ some at) (fits : at.q_pos + length bs ≤ d.quantum) where
  old-length : length (old_block k d at) ≡ d.quantum
  old-length = elim (Option-cases (block_at d.qsets at.item at.s_pos)) [
    | inl e ↦ rw (old_block, e) (whole d.quantum)
    | inr (b, e) ↦
        rw (old_block, e) (block_at-length d.quantum d.qset d.qsets at.item at.s_pos b v.shaped e)
  ]

  pub byte_at-written : (i : ℕ) → i < length bs → byte_at d' (f + i) ≡ get_elem? bs i
  byte_at-written i h =
      let moved = locate-further d.quantum d.qset f i at v.itemsize_int located (omega arith) in
      byte_at-block d' (f + i) (further at i) (splice (old_block k d at) at.q_pos bs)
        (rw (t.quantum_kept, t.qset_kept) moved) t.there
      ∙ get_elem?-splice_in (old_block k d at) at.q_pos i bs (omega (arith, old-length)) h

  -- The byte at `a` stands in the block that is written, elsewhere in it.
  same_block :
      (a : ℕ) (at2 : Place) (x : ℕ)
      → locate d.quantum d.qset a ≡ some at2
      → byte_at d a ≡ some x
      → at2.item ≡ at.item
      → at2.s_pos ≡ at.s_pos
      → (a < f) ⊎ (f + length bs ≤ a)
      → byte_at d' a ≡ some x
  same_block a at2 x place e i s out =
      let here = position-locate d.quantum d.qset f at located in
      let there = position-locate d.quantum d.qset a at2 place in
      let there' : a ≡ at.item * (d.quantum * d.qset) + (at.s_pos * d.quantum + at2.q_pos) =
        rw (i, s) at there.0 in
      let beside : (at2.q_pos < at.q_pos) ⊎ (at.q_pos + length bs ≤ at2.q_pos) =
        ground (arith, out, here.0, there') in
      let new =
        byte_at-block d' a at2 (splice (old_block k d at) at.q_pos bs)
          (rw (t.quantum_kept, t.qset_kept) place) (rw (i, s) t.there) in
      elim (Option-cases (block_at d.qsets at.item at.s_pos)) [
        | inl hole ↦
            let hole' : block_at d.qsets at2.item at2.s_pos ≡ none = rw (i, s) hole in
            let nothing : byte_in d at2 ≡ none = rw (byte_in, hole') refl in
            absurd (some_or_none x (sym e ∙ byte_at-place d a at2 place ∙ nothing))
        | inr (b, block) ↦
            let old : old_block k d at ≡ b = rw (old_block, block) refl in
            new
            ∙ get_elem?-splice_out (old_block k d at) at.q_pos at2.q_pos bs beside
            ∙ rw old (sym (byte_at-block d a at2 b place (rw (i, s) block)) ∙ e)
      ]

  pub byte_at-elsewhere :
      (a x : ℕ) → byte_at d a ≡ some x → (a < f) ⊎ (f + length bs ≤ a) → byte_at d' a ≡ some x
  byte_at-elsewhere a x e out = elim (Option-cases (locate d.quantum d.qset a)) [
    | inl nowhere ↦ absurd (some_or_none x (sym e ∙ byte_at-nowhere d a nowhere))
    | inr (at2, place) ↦
        let apart = λ (ne : (at2.item ≢ at.item) ⊎ (at2.s_pos ≢ at.s_pos)).
          byte_at-place d' a at2 (rw (t.quantum_kept, t.qset_kept) place)
          ∙ rw (byte_in, t.other at2.item at2.s_pos ne) refl
          ∙ sym (byte_at-place d a at2 place)
          ∙ e in
        elim (ℕ_discrete at2.item at.item) [
          | no ne ↦ apart (inl ne)
          | yes i ↦ elim (ℕ_discrete at2.s_pos at.s_pos) [
            | no ne ↦ apart (inr ne)
            | yes s ↦ same_block a at2 x place e i s out
          ]
        ]
  ]
