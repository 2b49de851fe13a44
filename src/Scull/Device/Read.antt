-- ===== src/Scull/Device/Read.antt =====
-- `scull_read` of code/examples/scull/main.c: what a call returns, and what it adds to the device.
use linux_drivers_study.Prelude.{
  ℕ, zero, suc, ◌+◌, ◌-◌, ◌<◌, ◌≤◌, ◌≡◌, ◌⊎◌, inl, inr, refl, arith, length, List, [], ◌∷◌, Option,
  none, some, true, false, Bool-cases, get_elem?, min, ◌==◌, if◌then◌else◌, ◌∙◌, sym, ltb, leb,
  get_elem?-inside, ◌%◌, ◌^◌,
}
use linux_drivers_study.Prelude.Bytes.{Bytes, slice, load_inside, length-slice}
use linux_drivers_study.Prelude.Int.{pos}
use linux_drivers_study.Kernel.Errno.{efault}
use linux_drivers_study.Kernel.Uaccess.{Uaccess, IsLawful}
use linux_drivers_study.Scull.Device.{
  Qset, Device, Kmalloc, Answer, answer, broken, Place, Followed, read_block, read_item,
  read_section, locate, follow,
}
use linux_drivers_study.Scull.Device.Shape.{
  IsValid, entry_at, block_at, AllBlocks-get, AllQsets-get,
}
use linux_drivers_study.Scull.Device.Touch.{Grown, followed-Grown}
use linux_drivers_study.Scull.Device.Write.{IsPlace}
use linux_drivers_study.Scull.Device.Follow.{IsFollowed, follow-IsFollowed}

-- How many bytes a call asks for in a device of this size.
abbrev pub most_of : (count f_pos size : ℕ) → ℕ
most_of count f_pos size = if ltb size ((f_pos + count) % 2 ^ 64) then size - f_pos else count

-- What a read at a place, inside the size of the device, may return: 0 at a hole, -EFAULT after a copy
-- that failed, and otherwise the bytes up to the end of the block. The device at most grows.
abbrev pub DoesRead :
    (U : Uaccess) (buf count f_pos : ℕ) (d : Device) (at : Place) → Answer U.User → Type 0
DoesRead U buf count f_pos d at (answer ret f' d' user' given) =
    Grown d d' given
    × (((block_at d.qsets at.item at.s_pos ≡ none) × (ret ≡ pos 0) × (f' ≡ f_pos))
        ⊎ (((ret ≡ efault) × (f' ≡ f_pos))
            ⊎ ((b : Bytes) × (block_at d.qsets at.item at.s_pos ≡ some b)
                × (ret ≡ pos (min (most_of count f_pos d.size) (d.quantum - at.q_pos)))
                × (f' ≡ f_pos + min (most_of count f_pos d.size) (d.quantum - at.q_pos))
                × (U.read_user user' buf (min (most_of count f_pos d.size) (d.quantum - at.q_pos))
                    ≡ slice b at.q_pos (min (most_of count f_pos d.size) (d.quantum - at.q_pos))))))
DoesRead U buf count f_pos d at broken = ⊥

block_at-lost : (qs : List Qset) (i s : ℕ) → length qs ≤ i → block_at qs i s ≡ none
block_at-lost [] i s h = refl
block_at-lost (q ∷ qs) zero s h = absurd (omega arith)
block_at-lost (q ∷ qs) (suc i) s h = block_at-lost qs i s (omega arith)

module _ (U : Uaccess) (lawful : IsLawful U) (k : Kmalloc) (buf count f_pos : ℕ) (d : Device)
    (user : U.User) (at : Place) (p : IsPlace d at) where
  abbrev Post : Answer U.User → Type 0
  Post = DoesRead U buf count f_pos d at

  Post-eq : (a a' : Answer U.User) → a ≡ a' → Post a' → Post a
  Post-eq a a' e h = rw e h

  abbrev most : ℕ
  most = most_of count f_pos d.size

  read_block_lem :
      (d1 : Device) (given : ℕ) (b : Bytes)
      → Grown d d1 given
      → block_at d1.qsets at.item at.s_pos ≡ some b
      → length b ≡ d.quantum
      → Post (read_block U k d.quantum d.qset buf count f_pos at most b d1 user given)
  unfolding read_block
  read_block_lem d1 given b g here len =
      let n = min most (d.quantum - at.q_pos) in
      let bytes = slice b at.q_pos n in
      let fits : at.q_pos + n ≤ length b = omega (arith, p, len) in
      let all : length bytes ≡ n = length-slice b at.q_pos n fits in
      let copied = U.copy_to_user user buf bytes in
      Post-eq _
        (if copied.0 == 0
          then answer (pos n) (f_pos + n) d1 copied.1 given
          else answer efault f_pos d1 copied.1 given)
        (rw (read_block, load_inside b at.q_pos n fits) refl)
        (elim (Bool-cases (copied.0 == 0)) [
          | inl ok ↦ rw ok (
            g,
            inr (
                inr (
                  b,
                  sym (g.kept at.item at.s_pos) ∙ here,
                  refl,
                  refl,
                  rw all at (lawful.to_user user buf bytes (ground (arith, ok))),
                )),
          )
          | inr bad ↦ rw bad (g, inr (inl (refl, refl)))
        ])

  hole_lem :
      (d1 : Device) (given : ℕ)
      → Grown d d1 given
      → block_at d1.qsets at.item at.s_pos ≡ none
      → Post (answer (pos 0) f_pos d1 user given)
  hole_lem d1 given g here = (g, inl (sym (g.kept at.item at.s_pos) ∙ here, refl, refl))

  read_item_lem :
      (way : Followed)
      → Grown d (record d { qsets = way.qsets }) way.given
      → IsFollowed k.grants d.quantum d.qset 0 d.qsets at.item way
      → Post (
          read_item U k d.quantum d.qset buf count f_pos at most way
            (record d { qsets = way.qsets })
            user)
  unfolding read_item
  read_item_lem way g f = elim (Bool-cases way.found) [
    | inl found ↦
        let (q, here) = get_elem?-inside way.qsets at.item (f.reached found) in by_item found q here
    | inr lost ↦
        Post-eq _ (answer (pos 0) f_pos (record d { qsets = way.qsets }) user way.given)
          (rw (read_item, lost) refl)
          (hole_lem _ way.given g (block_at-lost way.qsets at.item at.s_pos (f.lost lost)))
  ]
    where
      d1 : Device
      d1 = record d { qsets = way.qsets }

      by_entry :
          (blocks : List (Option Bytes))
          → way.found ≡ true
          → get_elem? way.qsets at.item ≡ some (some blocks)
          → (x : Option Bytes) → get_elem? blocks at.s_pos ≡ some x
          → Post (
              read_item U k d.quantum d.qset buf count f_pos at most way
                (record d { qsets = way.qsets })
                user)
      by_entry blocks found here none entry =
          Post-eq _ (answer (pos 0) f_pos (record d { qsets = way.qsets }) user way.given)
            (rw (read_item, found, here, entry) refl)
            (hole_lem _ way.given g (rw (block_at, here, entry_at, entry) refl))
      by_entry blocks found here (some b) entry =
          let shape = AllQsets-get d.quantum d.qset way.qsets at.item blocks f.shaped here in
          Post-eq _ _ (rw (read_item, found, here, entry) refl) (
            read_block_lem _ way.given b g (rw (block_at, here, entry_at, entry) refl)
              (AllBlocks-get d.quantum blocks at.s_pos b shape.1 entry))

      by_item :
          way.found ≡ true
          → (q : Qset) → get_elem? way.qsets at.item ≡ some q
          → Post (
              read_item U k d.quantum d.qset buf count f_pos at most way
                (record d { qsets = way.qsets })
                user)
      by_item found none here =
          Post-eq _ (answer (pos 0) f_pos (record d { qsets = way.qsets }) user way.given)
            (rw (read_item, found, here) refl) (hole_lem _ way.given g (rw (block_at, here) refl))
      by_item found (some blocks) here =
          let shape = AllQsets-get d.quantum d.qset way.qsets at.item blocks f.shaped here in
          let (x, entry) = get_elem?-inside blocks at.s_pos (omega (arith, shape.0, p)) in
          by_entry blocks found here x entry

  pub read_section_lem :
      IsValid d
      → locate d.quantum d.qset f_pos ≡ some at
      → f_pos < d.size
      → Post (read_section U k d.quantum d.qset buf count f_pos d user)
  unfolding read_section
  read_section_lem v located inside =
      let way = follow k.grants 0 d.qsets at.item in
      let f = follow-IsFollowed k.grants d.quantum d.qset 0 d.qsets at.item v.shaped in
      let short : leb d.size f_pos ≡ false = ground arith in
      Post-eq _ _ (rw (read_section, short, located) refl)
        (read_item_lem way (followed-Grown k d at.item v) f)
