-- ===== src/Scull/Device/Write.antt =====
-- `scull_write` of code/examples/scull/main.c: what a call does to the blocks of the device.
use linux_drivers_study.Prelude.{
  ℕ, ◌+◌, ◌-◌, ◌<◌, ◌≤◌, ◌≡◌, ◌⊎◌, inl, inr, refl, arith, length, List, Option, none, some,
  Bool-cases, get_elem?, set, get_elem?-set_eq, min, max, ◌==◌, if◌then◌else◌, ◌∙◌, ap, sym,
  replicate, length-replicate, get_elem?-inside,
}
use native.Mathlib.Decide.{ℕ_discrete}
use linux_drivers_study.Prelude.Bytes.{Bytes, slice, splice, load_inside, length-slice}
use linux_drivers_study.Prelude.Int.{pos}
use linux_drivers_study.Kernel.Errno.{efault, enomem}
use linux_drivers_study.Kernel.Uaccess.{Uaccess, IsLawful}
use linux_drivers_study.Scull.Device.{
  Qset, Device, Kmalloc, Answer, answer, broken, Place, write_block, write_blocks, write_item,
  write_section, locate, follow,
}
use linux_drivers_study.Scull.Device.Shape.{
  IsValid, block_at, AllBlocks-get, AllBlocks-replicate, entry_at-replicate, count_blocks-replicate,
  AllQsets-get, AllQsets-set, count_qsets-set, block_at-set_same, block_at-set_other,
}
use linux_drivers_study.Scull.Device.Touch.{
  Grown, Touched, put, used, taken_too, put-Touched, followed-Grown,
}
use linux_drivers_study.Scull.Device.Follow.{follow-IsFollowed}

-- What a call of `write` at the place `at` may do, from the device `d`. -EFAULT and -ENOMEM leave the size
-- and the position; the first may have written part of the bytes, the second none.
abbrev pub Wrote :
    (U : Uaccess) (k : Kmalloc) (buf count f_pos : ℕ) (d : Device) (user : U.User) (at : Place)
    → Answer U.User
    → Type 0
Wrote U k buf count f_pos d user at (answer ret f' d' user' given) =
    let n = min count (d.quantum - at.q_pos) in
    ((ret ≡ pos n)
      × (f' ≡ f_pos + n)
      × (d'.size ≡ max d.size (f_pos + n))
      × (length (U.read_user user buf n) ≡ n)
      × Touched k d d' at given (U.read_user user buf n))
    ⊎ (((ret ≡ efault)
          × (f' ≡ f_pos)
          × (d'.size ≡ d.size)
          × ((bs : Bytes) × (length bs ≡ n) × Touched k d d' at given bs))
        ⊎ ((ret ≡ enomem) × (f' ≡ f_pos) × Grown d d' given))
Wrote U k buf count f_pos d user at broken = ⊥

-- A place inside the quantum sets of a device.
abbrev pub IsPlace : Device → Place → Type 0
IsPlace d at = (at.s_pos < d.qset) × (at.q_pos < d.quantum)

module _ (U : Uaccess) (lawful : IsLawful U) (k : Kmalloc)
    (whole : (n : ℕ) → length (k.block n) ≡ n) (buf count f_pos : ℕ) (d : Device) (user : U.User)
    (at : Place) (p : IsPlace d at) where
  abbrev Post : Answer U.User → Type 0
  Post = Wrote U k buf count f_pos d user at

  Post-eq : (a a' : Answer U.User) → a ≡ a' → Post a' → Post a
  Post-eq a a' e h = rw e h

  write_block_lem :
      (d1 : Device) (blocks : List (Option Bytes)) (x : Option Bytes) (given : ℕ)
      → (g : Grown d d1 given) → (here : get_elem? d1.qsets at.item ≡ some (some blocks))
      → (entry : get_elem? blocks at.s_pos ≡ some x)
      → length (used k d d1 at blocks x given g here entry) ≡ d.quantum
      → Post (
          write_block U k d.quantum d.qset buf count f_pos at blocks
            (used k d d1 at blocks x given g here entry)
            d1
            user
            (taken_too k d d1 at blocks x given g here entry))
  unfolding write_block
  write_block_lem d1 blocks x given g here entry len =
      let b = used k d d1 at blocks x given g here entry in
      let n = min count (d.quantum - at.q_pos) in
      let old = slice b at.q_pos n in
      let fits : at.q_pos + n ≤ length b = omega (arith, p, len) in
      let all : length old ≡ n = length-slice b at.q_pos n fits in
      let copied = U.copy_from_user user buf old in
      let touch = put-Touched k d d1 at blocks x given g here entry copied.1 in
      let after = put d1 at blocks (splice b at.q_pos copied.1) in
      let tk = taken_too k d d1 at blocks x given g here entry in
      Post-eq _
        (if copied.0 == 0
          then answer (pos n) (f_pos + n) (record after { size = max d1.size (f_pos + n) }) user tk
          else answer efault f_pos after user tk)
        (rw (write_block, load_inside b at.q_pos n fits) refl)
        (elim (Bool-cases (copied.0 == 0)) [
          | inl ok ↦
              let landed =
                lawful.from_user user buf old (ground (arith, ok))
                ∙ ap (U.read_user user buf) all in
              rw ok (
                inl (
                  refl,
                  refl,
                  ap (λ (s : ℕ). max s (f_pos + n)) g.size_kept,
                  ap length (sym landed) ∙ lawful.from_user_length user buf old ∙ all,
                  rw (sym landed) (touch (max d1.size (f_pos + n)) len),
                ))
          | inr bad ↦ rw bad (
              inr (
                inl (
                  refl,
                  refl,
                  g.size_kept,
                  (copied.1, lawful.from_user_length user buf old ∙ all, touch d1.size len),
                )))
        ])

  write_blocks_lem :
      (d1 : Device) (blocks : List (Option Bytes)) (given : ℕ)
      → Grown d d1 given
      → get_elem? d1.qsets at.item ≡ some (some blocks)
      → Post (write_blocks U k d.quantum d.qset buf count f_pos at blocks d1 user given)
  unfolding write_blocks
  write_blocks_lem d1 blocks given g here =
      let shape = AllQsets-get d1.quantum d1.qset d1.qsets at.item blocks g.valid.shaped here in
      let (x, entry) = get_elem?-inside blocks at.s_pos (omega (arith, shape.0, g.qset_kept, p)) in
      by_entry x entry
    where
      by_entry :
          (x : Option Bytes)
          → get_elem? blocks at.s_pos ≡ some x
          → Post (write_blocks U k d.quantum d.qset buf count f_pos at blocks d1 user given)
      by_entry none entry = elim (Bool-cases (k.grants given)) [
        | inl gets ↦
            Post-eq _ _ (rw (write_blocks, entry, gets) refl)
              (write_block_lem d1 blocks none given g here entry (whole d.quantum))
        | inr refused ↦
            Post-eq _ (answer enomem f_pos d1 user given) (rw (write_blocks, entry, refused) refl)
              (inr (inr (refl, refl, g)))
      ]
      by_entry (some b) entry =
          let shape = AllQsets-get d1.quantum d1.qset d1.qsets at.item blocks g.valid.shaped here in
          Post-eq _ _ (rw (write_blocks, entry) refl) (
            write_block_lem d1 blocks (some b) given g here entry
              (AllBlocks-get d1.quantum blocks at.s_pos b shape.1 entry ∙ g.quantum_kept))

  -- A new array of entries is no block more for `block_at`.
  array-Grown :
      (d1 : Device) (given : ℕ)
      → Grown d d1 given
      → get_elem? d1.qsets at.item ≡ some none
      → Grown d
          (record d1 { qsets = set d1.qsets at.item (some (replicate d.qset none)) })
          (given + 1)
  array-Grown d1 given g here =
      let fresh : List (Option Bytes) = replicate d.qset none in
      let v = g.valid in
      record {
        valid = record {
          quantum_positive = v.quantum_positive;
          qset_positive = v.qset_positive;
          itemsize_int = v.itemsize_int;
          shaped =
              AllQsets-set d1.quantum d1.qset d1.qsets at.item fresh v.shaped
                (length-replicate d.qset none ∙ sym g.qset_kept)
                (AllBlocks-replicate d1.quantum d.qset);
        };
        quantum_kept = g.quantum_kept;
        qset_kept = g.qset_kept;
        size_kept = g.size_kept;
        kept = λ i s. elim (ℕ_discrete i at.item) [
          | yes same ↦ rw same (
              block_at-set_same d1.qsets at.item s none fresh here
              ∙ entry_at-replicate d.qset s
              ∙ sym (rw (block_at, here) refl)
              ∙ g.kept at.item s)
          | no differs ↦
              block_at-set_other d1.qsets at.item i s (some fresh) (λ e. differs (sym e))
              ∙ g.kept i s
        ];
        counted = omega (
          arith,
          g.counted,
          count_blocks-replicate d.qset,
          count_qsets-set d1.qsets at.item none (some fresh) here,
        );
      }

  write_item_lem :
      (d1 : Device) (given : ℕ)
      → Grown d d1 given
      → at.item < length d1.qsets
      → Post (write_item U k d.quantum d.qset buf count f_pos at d1 user given)
  unfolding write_item
  write_item_lem d1 given g inside =
      let (q, here) = get_elem?-inside d1.qsets at.item inside in by_item q here
    where
      by_item :
          (q : Qset)
          → get_elem? d1.qsets at.item ≡ some q
          → Post (write_item U k d.quantum d.qset buf count f_pos at d1 user given)
      by_item none here =
          let fresh : List (Option Bytes) = replicate d.qset none in
          elim (Bool-cases (k.grants given)) [
            | inl gets ↦ Post-eq _ _ (rw (write_item, here, gets) refl) (
                write_blocks_lem _ fresh (given + 1) (array-Grown d1 given g here)
                  (get_elem?-set_eq d1.qsets at.item (some fresh) inside))
            | inr refused ↦
                Post-eq _ (answer enomem f_pos d1 user given) (rw (write_item, here, refused) refl)
                  (inr (inr (refl, refl, g)))
          ]
      by_item (some blocks) here =
          Post-eq _ _ (rw (write_item, here) refl) (write_blocks_lem d1 blocks given g here)

  pub write_section_lem :
      IsValid d
      → locate d.quantum d.qset f_pos ≡ some at
      → Post (write_section U k d.quantum d.qset buf count f_pos d user)
  unfolding write_section
  write_section_lem v located =
      let way = follow k.grants 0 d.qsets at.item in
      let f = follow-IsFollowed k.grants d.quantum d.qset 0 d.qsets at.item v.shaped in
      let d1 = record d { qsets = way.qsets } in
      let g : Grown d d1 way.given = followed-Grown k d at.item v in
      elim (Bool-cases way.found) [
        | inl found ↦
            Post-eq _ _ (rw (write_section, located, found) refl)
              (write_item_lem d1 way.given g (f.reached found))
        | inr lost ↦
            Post-eq _ (answer enomem f_pos d1 user way.given)
              (rw (write_section, located, lost) refl) (inr (inr (refl, refl, g)))
      ]
