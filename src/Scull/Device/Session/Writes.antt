-- ===== src/Scull/Device/Session/Writes.antt =====
-- A write to a device of code/examples/scull/main.c is known afterwards.
use linux_drivers_study.Prelude.{
  ℕ, ◌-◌, ◌<◌, ◌≡◌, inl, inr, refl, arith, length, List, ◌∷◌, Option, none, some, Bool, true, min,
  take, take_all,
}
use linux_drivers_study.Kernel.Uaccess.{Uaccess, IsLawful}
use linux_drivers_study.Scull.Device.{
  Device, Kmalloc, Answer, answer, broken, Place, locate, write_section,
}
use linux_drivers_study.Scull.Device.Locate.{position-locate}
use linux_drivers_study.Scull.Device.Write.{Wrote, write_section_lem}
use linux_drivers_study.Scull.Device.Session.{
  Call, writing, Known, learn, forget, after_write, good_write, both, moved, session,
}
use linux_drivers_study.Scull.Device.Session.Holds.{
  Holds, Grown-Holds, learn-Holds, forget-Holds, forget_more, both-true,
}

module _ (U : Uaccess) (lawful : IsLawful U) (k : Kmalloc)
    (whole : (n : ℕ) → length (k.block n) ≡ n) (buf count f : ℕ) (user : U.User) (d : Device)
    (known : Known) (at : Place) (h : Holds d known) (located : locate d.quantum d.qset f ≡ some at)
    (cs : List (Call U.User))
    (rest : (d' : Device) (known' : Known)
      → d'.quantum ≡ d.quantum
      → d'.qset ≡ d.qset
      → Holds d' known'
      → session U cs d' known' ≡ some true) where
  after_writing : Answer U.User → Option Bool
  after_writing r = elim r [
    | broken ↦ none
    | answer ret f' d' user' given ↦
        both (good_write count ret)
          (session U cs d' (after_write known f count ret (moved U user buf ret)))
  ]

  writing_good :
      (r : Answer U.User)
      → at.q_pos < d.quantum
      → Wrote U k buf count f d user at r
      → after_writing r ≡ some true
  unfolding after_writing
  writing_good broken room p = absurd p
  writing_good (answer ret f' d' user' given) room (inl (e, moves, size, len, t)) =
      let n = min count (d.quantum - at.q_pos) in
      let w = U.read_user user buf n in
      let all : take n w ≡ w = take_all n w (omega (arith, len)) in
      rw (e, all)
        (both-true _ _ (ground (arith, room)) (
          rest d' (learn known f w) t.quantum_kept t.qset_kept (
            learn-Holds k whole d d' at given f w known h t located (omega (arith, len, room))
              (rw len size))))
  writing_good (answer ret f' d' user' given) room (inr (inl (e, same, size, (bs, len, t)))) =
      rw e (
        both-true _ _ refl (
          rest d' (forget known f count) t.quantum_kept t.qset_kept (
            forget_more d' known f (length bs) count (omega (arith, len)) (
              forget-Holds k whole d d' at given f bs known h t located (omega (arith, len, room))
                size))))
  writing_good (answer ret f' d' user' given) room (inr (inr (e, same, g))) = rw e (
      both-true _ _ refl
        (rest d' known g.quantum_kept g.qset_kept (Grown-Holds d d' given known g h)))

  pub writes_on : session U (writing k buf count f user ∷ cs) d known ≡ some true
  unfolding session after_writing
  writes_on =
      let place = position-locate d.quantum d.qset f at located in
      writing_good (write_section U k d.quantum d.qset buf count f d user) place.1.2 (
        write_section_lem U lawful k whole buf count f d user at (omega (arith, place)) h.valid
          located)
