-- ===== src/Scull/Device/Session/Reads.antt =====
-- A read of a device of code/examples/scull/main.c returns what is known of it.
use linux_drivers_study.Prelude.{
  ℕ, ◌+◌, ◌-◌, ◌<◌, ◌≤◌, ◌≡◌, inl, inr, refl, arith, length, List, ◌∷◌, Option, none, some, Bool,
  true, ◌||◌, Option-cases, ◌==◌, ◌∙◌, sym, min, not, take, take_all,
}
use native.Mathlib.Decide.{dec_lt}
use linux_drivers_study.Prelude.Bytes.{Bytes, slice, length-slice, get_elem?-slice}
use linux_drivers_study.Prelude.Int.{pos}
use linux_drivers_study.Kernel.Uaccess.{Uaccess, IsLawful}
use linux_drivers_study.Scull.Device.{
  Device, Kmalloc, Answer, answer, broken, Place, locate, read_section,
}
use linux_drivers_study.Scull.Device.Shape.{block_at, block_at-length}
use linux_drivers_study.Scull.Device.Locate.{position-locate}
use linux_drivers_study.Scull.Device.Read.{DoesRead, most_of, read_section_lem}
use linux_drivers_study.Scull.Device.Image.{
  byte_in, some_or_none, byte_at-place, byte_at-block, further, locate-further,
}
use linux_drivers_study.Scull.Device.Session.{
  Call, reading, Known, agrees, is_none, good_read, both, moved, session,
}
use linux_drivers_study.Scull.Device.Session.Holds.{Holds, agrees_lem, Grown-Holds, both-true}

pub past_size :
    (U : Uaccess) (k : Kmalloc) (buf count f : ℕ) (user : U.User) (d : Device)
    → d.size ≤ f
    → read_section U k d.quantum d.qset buf count f d user ≡ answer (pos 0) f d user 0
unfolding read_section
past_size U k buf count f user d past = ground arith

module _ (U : Uaccess) (lawful : IsLawful U) (k : Kmalloc)
    (whole : (n : ℕ) → length (k.block n) ≡ n) (buf count f : ℕ) (user : U.User) (d : Device)
    (known : Known) (at : Place) (h : Holds d known) (located : locate d.quantum d.qset f ≡ some at)
    (cs : List (Call U.User))
    (rest : (d' : Device) (known' : Known)
      → d'.quantum ≡ d.quantum
      → d'.qset ≡ d.qset
      → Holds d' known'
      → session U cs d' known' ≡ some true) where
  after_reading : Answer U.User → Option Bool
  after_reading r = elim r [
    | broken ↦ none
    | answer ret f' d' user' given ↦
        both (good_read known f count ret (moved U user' buf ret)) (session U cs d' known)
  ]

  nothing_good : (w : Bytes) → known f ≡ none → good_read known f count (pos 0) (take 0 w) ≡ true
  nothing_good w e = ground (arith, e)

  some_bytes :
      f < d.size
      → at.q_pos < d.quantum
      → (not (min (most_of count f d.size) (d.quantum - at.q_pos) == 0)
          || (count == 0)
          || is_none (known f))
        ≡ true
  some_bytes inside room = ground (arith, inside, room)

  hole_unknown : block_at d.qsets at.item at.s_pos ≡ none → known f ≡ none
  hole_unknown hole = elim (Option-cases (known f)) [
    | inl e ↦ e
    | inr (x, e) ↦
        let nothing : byte_in d at ≡ none = rw (byte_in, hole) refl in
        absurd (some_or_none x (sym (h.byte f x e) ∙ byte_at-place d f at located ∙ nothing))
  ]

  -- The bytes of a block are those that are known.
  block_good :
      (user' : U.User) (b : Bytes)
      → f < d.size
      → block_at d.qsets at.item at.s_pos ≡ some b
      → let n = min (most_of count f d.size) (d.quantum - at.q_pos) in
        U.read_user user' buf n ≡ slice b at.q_pos n
        → good_read known f count (pos n) (moved U user' buf (pos n)) ≡ true
  block_good user' b inside block got =
      let n = min (most_of count f d.size) (d.quantum - at.q_pos) in
      let room : at.q_pos < d.quantum = (position-locate d.quantum d.qset f at located).1.2 in
      let len = block_at-length d.quantum d.qset d.qsets at.item at.s_pos b h.valid.shaped block in
      let all : length (slice b at.q_pos n) ≡ n =
        length-slice b at.q_pos n (omega (arith, len, room)) in
      let w : take n (U.read_user user' buf n) ≡ slice b at.q_pos n =
        rw got (take_all n (slice b at.q_pos n) (omega (arith, all))) in
      let good : agrees known f (slice b at.q_pos n) ≡ true =
        agrees_lem known (slice b at.q_pos n) f (λ i x small e.
          let inside_n : i < n = omega (arith, small, all) in
          get_elem?-slice b at.q_pos n i inside_n
          ∙ sym (
              byte_at-block d (f + i) (further at i) b
                (locate-further d.quantum d.qset f i at h.valid.itemsize_int located (omega arith))
                block)
          ∙ h.byte (f + i) x e) in
      rw (w, good) (some_bytes inside room)

  reading_good :
      (r : Answer U.User) → f < d.size → DoesRead U buf count f d at r → after_reading r ≡ some true
  unfolding after_reading
  reading_good broken inside p = absurd p
  reading_good (answer ret f' d' user' given) inside (g, inl (hole, e, same)) = rw e (
      both-true _ _ (nothing_good (U.read_user user' buf 0) (hole_unknown hole))
        (rest d' known g.quantum_kept g.qset_kept (Grown-Holds d d' given known g h)))
  reading_good (answer ret f' d' user' given) inside (g, inr (inl (e, same))) = rw e (
      both-true true _ refl
        (rest d' known g.quantum_kept g.qset_kept (Grown-Holds d d' given known g h)))
  reading_good (answer ret f' d' user' given) inside (g, inr (inr (b, block, e, moves, got))) =
      rw e (
        both-true _ _ (block_good user' b inside block got)
          (rest d' known g.quantum_kept g.qset_kept (Grown-Holds d d' given known g h)))

  past_end : d.size ≤ f → known f ≡ none
  past_end past = elim (Option-cases (known f)) [
    | inl e ↦ e
    | inr (x, e) ↦ absurd (omega (arith, past, h.below f x e))
  ]

  pub reads_on : session U (reading k buf count f user ∷ cs) d known ≡ some true
  unfolding session after_reading
  reads_on = elim (dec_lt f d.size) [
    | yes inside ↦ reading_good (read_section U k d.quantum d.qset buf count f d user) inside (
        read_section_lem U lawful k buf count f d user at
          (omega (arith, position-locate d.quantum d.qset f at located)) h.valid located inside)
    | no past ↦
        let ends : read_section U k d.quantum d.qset buf count f d user
            ≡ answer (pos 0) f d user 0 =
          past_size U k buf count f user d (omega arith) in
        rw (session, ends)
          (both-true _ _ (nothing_good (U.read_user user buf 0) (past_end (omega arith)))
            (rest d known refl refl h))
  ]
