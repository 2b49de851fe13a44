-- ===== src/Scull/Device/Touch.antt =====
-- How code/examples/scull/main.c replaces one block of a device.
use linux_drivers_study.Prelude.{
  ℕ, zero, suc, ◌+◌, ◌<◌, ◌≡◌, ◌≢◌, ◌⊎◌, inl, inr, refl, arith, length, List, [], ◌∷◌, Option, none,
  some, get_elem?, set, length-set, get_elem?-set_eq, get_elem?-set_ne, ◌∙◌, ap, sym,
}
use native.Mathlib.Decide.{ℕ_discrete}
use linux_drivers_study.Prelude.Bytes.{Bytes, splice, length-splice}
use linux_drivers_study.Scull.Device.{Device, Kmalloc, Place, follow}
use linux_drivers_study.Scull.Device.Shape.{
  IsValid, entry_at, block_at, count_qsets, AllBlocks-set, count_blocks-set, AllQsets-get,
  AllQsets-set, count_qsets-set, block_at-set_same, block_at-set_other,
}
use linux_drivers_study.Scull.Device.Follow.{follow-IsFollowed}

-- A device that has got `given` more blocks of memory and holds the same bytes.
pub record Grown (d d' : Device) (given : ℕ) : Type 0 where
  pub valid : IsValid d'
  pub quantum_kept : d'.quantum ≡ d.quantum
  pub qset_kept : d'.qset ≡ d.qset
  pub size_kept : d'.size ≡ d.size
  pub kept : (i s : ℕ) → block_at d'.qsets i s ≡ block_at d.qsets i s
  pub counted : count_qsets d'.qsets ≡ count_qsets d.qsets + given

-- Following the chain grows the device.
pub followed-Grown :
    (k : Kmalloc) (d : Device) (n : ℕ)
    → IsValid d
    → let way = follow k.grants 0 d.qsets n in Grown d (record d { qsets = way.qsets }) way.given
followed-Grown k d n v =
    let f = follow-IsFollowed k.grants d.quantum d.qset 0 d.qsets n v.shaped in
    record {
      valid = record {
        quantum_positive = v.quantum_positive;
        qset_positive = v.qset_positive;
        itemsize_int = v.itemsize_int;
        shaped = f.shaped;
      };
      quantum_kept = refl;
      qset_kept = refl;
      size_kept = refl;
      kept = f.kept;
      counted = omega (arith, f.counted);
    }

-- The block at a place before it is written; a new one holds what kmalloc left in it.
abbrev pub old_block : Kmalloc → Device → Place → Bytes
old_block k d at = elim (block_at d.qsets at.item at.s_pos) [
  | none ↦ k.block d.quantum
  | some b ↦ b
]

-- A device that has got `given` more blocks, with `bs` written at the place and all else as before.
pub record Touched (k : Kmalloc) (d d' : Device) (at : Place) (given : ℕ) (bs : Bytes)
    : Type 0 where
  pub valid : IsValid d'
  pub quantum_kept : d'.quantum ≡ d.quantum
  pub qset_kept : d'.qset ≡ d.qset
  pub there : block_at d'.qsets at.item at.s_pos ≡ some (splice (old_block k d at) at.q_pos bs)
  pub other :
      (i s : ℕ) → (i ≢ at.item) ⊎ (s ≢ at.s_pos) → block_at d'.qsets i s ≡ block_at d.qsets i s
  pub counted : count_qsets d'.qsets ≡ count_qsets d.qsets + given

-- The device after a block of an array that it holds is replaced.
abbrev pub put : Device → Place → List (Option Bytes) → Bytes → Device
put d at blocks b = record d { qsets = set d.qsets at.item (some (set blocks at.s_pos (some b))) }

entry_inside :
    (bs : List (Option Bytes)) (s : ℕ) (x : Option Bytes) → get_elem? bs s ≡ some x → s < length bs
entry_inside [] s x h = absurd (cc)
entry_inside (b ∷ bs) zero x h = omega arith
entry_inside (b ∷ bs) (suc s) x h = omega (arith, entry_inside bs s x h)

-- `d1` is `d` grown; the block `x` of the array `blocks` in it is replaced.
module _ (k : Kmalloc) (d d1 : Device) (at : Place) (blocks : List (Option Bytes))
    (x : Option Bytes) (given : ℕ) (g : Grown d d1 given)
    (here : get_elem? d1.qsets at.item ≡ some (some blocks))
    (entry : get_elem? blocks at.s_pos ≡ some x) where
  abbrev pub used : Bytes
  used = elim x [ none ↦ k.block d.quantum | some b ↦ b ]

  abbrev pub taken_too : ℕ
  taken_too = elim x [ none ↦ given + 1 | some b ↦ given ]

  block_here : block_at d1.qsets at.item at.s_pos ≡ x
  block_here = rw (block_at, here, entry_at, entry) refl

  old_block_lem : old_block k d at ≡ used
  old_block_lem =
      let e : block_at d.qsets at.item at.s_pos ≡ x = sym (g.kept at.item at.s_pos) ∙ block_here in
      ap (λ (o : Option Bytes). elim o [ none ↦ k.block d.quantum | some b ↦ b ]) e

  put-IsValid : (b : Bytes) → length b ≡ d.quantum → IsValid (put d1 at blocks b)
  put-IsValid b len =
      let v = g.valid in
      let shape = AllQsets-get d1.quantum d1.qset d1.qsets at.item blocks v.shaped here in
      record {
        quantum_positive = v.quantum_positive;
        qset_positive = v.qset_positive;
        itemsize_int = v.itemsize_int;
        shaped =
            AllQsets-set d1.quantum d1.qset d1.qsets at.item _ v.shaped
              (length-set blocks at.s_pos (some b) ∙ shape.0)
              (AllBlocks-set d1.quantum blocks at.s_pos b shape.1 (len ∙ sym g.quantum_kept));
      }

  splice_kept :
      (b : Bytes) (i s : ℕ)
      → (i ≢ at.item) ⊎ (s ≢ at.s_pos)
      → block_at (put d1 at blocks b).qsets i s ≡ block_at d.qsets i s
  splice_kept b i s ne = elim (ℕ_discrete i at.item) [
    | yes same ↦ elim ne [
      | inl differs ↦ absurd (differs same)
      | inr differs ↦ rw same (
          block_at-set_same d1.qsets at.item s (some blocks) (set blocks at.s_pos (some b)) here
          ∙ entry_other s b differs
          ∙ g.kept at.item s)
    ]
    | no differs ↦
        block_at-set_other d1.qsets at.item i s (some (set blocks at.s_pos (some b)))
          (λ e. differs (sym e))
        ∙ g.kept i s
  ]
    where
      entry_other :
          (s : ℕ) (b : Bytes)
          → s ≢ at.s_pos
          → entry_at (set blocks at.s_pos (some b)) s ≡ block_at d1.qsets at.item s
      entry_other s b differs =
          rw
            (
              block_at,
              here,
              entry_at,
              get_elem?-set_ne blocks at.s_pos s (some b) (λ e. differs (sym e)),
            )
            refl

  put_counted :
      (b : Bytes) → count_qsets (put d1 at blocks b).qsets ≡ count_qsets d.qsets + taken_too
  put_counted b =
      elim x
          as (λ x.
            get_elem? blocks at.s_pos ≡ some x
            → count_qsets (put d1 at blocks b).qsets
              ≡ count_qsets d.qsets + elim x [ none ↦ given + 1 | some b ↦ given ]) [
                | none ↦ λ e. omega (
                  arith,
                  g.counted,
                  count_qsets-set d1.qsets at.item (some blocks)
                      (some (set blocks at.s_pos (some b))) here,
                  count_blocks-set blocks at.s_pos none b e,
                )
                | some o ↦ λ e. omega (
                  arith,
                  g.counted,
                  count_qsets-set d1.qsets at.item (some blocks)
                      (some (set blocks at.s_pos (some b))) here,
                  count_blocks-set blocks at.s_pos (some o) b e,
                )
              ]
        entry

  pub put-Touched :
      (bs : Bytes) (size : ℕ)
      → length used ≡ d.quantum
      → Touched k d
          (record (put d1 at blocks (splice used at.q_pos bs)) { size = size })
          at
          taken_too
          bs
  put-Touched bs size len =
      let b = splice used at.q_pos bs in
      let v = put-IsValid b (length-splice used at.q_pos bs ∙ len) in
      record {
        valid = record {
          quantum_positive = v.quantum_positive;
          qset_positive = v.qset_positive;
          itemsize_int = v.itemsize_int;
          shaped = v.shaped;
        };
        quantum_kept = g.quantum_kept;
        qset_kept = g.qset_kept;
        there =
            block_at-set_same d1.qsets at.item at.s_pos (some blocks) (set blocks at.s_pos (some b))
              here
            ∙ rw
                (
                  entry_at,
                  get_elem?-set_eq blocks at.s_pos (some b) (entry_inside blocks at.s_pos x entry),
                )
                (ap (λ (o : Bytes). some (splice o at.q_pos bs)) (sym old_block_lem));
        other = splice_kept b;
        counted = put_counted b;
      }
