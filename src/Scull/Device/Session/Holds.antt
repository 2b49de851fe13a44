-- ===== src/Scull/Device/Session/Holds.antt =====
-- What is known of the bytes of a device of code/examples/scull/main.c, and that a call keeps it true.
use linux_drivers_study.Prelude.{
  ℕ, suc, ◌+◌, ◌-◌, ◌<◌, ◌≤◌, ◌≡◌, ◌⊎◌, inl, inr, refl, arith, length, [], ◌∷◌, Option, some, Bool,
  true, Option-cases, get_elem?, ◌∙◌, max,
}
use native.Mathlib.Decide.{dec_lt}
use linux_drivers_study.Prelude.Bytes.{Bytes}
use linux_drivers_study.Scull.Device.{Device, Kmalloc, Place, locate}
use linux_drivers_study.Scull.Device.Shape.{IsValid}
use linux_drivers_study.Scull.Device.Touch.{Grown, Touched}
use linux_drivers_study.Scull.Device.Image.{
  byte_at, byte_at-Grown, byte_at-written, byte_at-elsewhere,
}
use linux_drivers_study.Scull.Device.Session.{Known, learn, forget, agrees, both}

-- The device holds what is known, below its size.
pub record Holds (d : Device) (known : Known) : Type 0 where
  pub valid : IsValid d
  pub byte : (a x : ℕ) → known a ≡ some x → byte_at d a ≡ some x
  pub below : (a x : ℕ) → known a ≡ some x → a < d.size

pub agrees_lem :
    (known : Known) (w : Bytes) (f : ℕ)
    → ((i x : ℕ) → i < length w → known (f + i) ≡ some x → get_elem? w i ≡ some x)
    → agrees known f w ≡ true
agrees_lem known [] f h = refl
agrees_lem known (b ∷ w) f h =
    let rest = agrees_lem known w (f + 1) (λ i x k e.
      h (suc i) x (omega arith) (let s : f + suc i ≡ f + 1 + i = omega arith in rw s e)) in
    elim (Option-cases (known f)) [
      | inl unknown ↦ rw (unknown, rest) refl
      | inr (x, e) ↦
          let same = h 0 x (omega arith) (let s : f + 0 ≡ f = omega arith in rw s e) in
          ground (arith, e, rest, same)
    ]

pub Grown-Holds :
    (d d' : Device) (given : ℕ) (known : Known) → Grown d d' given → Holds d known → Holds d' known
Grown-Holds d d' given known g h = record {
  valid = g.valid;
  byte = λ a x e. byte_at-Grown d d' given a g ∙ h.byte a x e;
  below = λ a x e. rw g.size_kept (h.below a x e);
}

module _ (k : Kmalloc) (whole : (n : ℕ) → length (k.block n) ≡ n) (d d' : Device) (at : Place)
    (given f : ℕ) (bs : Bytes) (known : Known) (h : Holds d known) (t : Touched k d d' at given bs)
    (located : locate d.quantum d.qset f ≡ some at) (fits : at.q_pos + length bs ≤ d.quantum) where
  -- The byte at a position of the write, and at any other.
  at_window :
      (a x : ℕ) → f ≤ a → a < f + length bs → get_elem? bs (a - f) ≡ some x → byte_at d' a ≡ some x
  at_window a x from before e =
      let here =
        byte_at-written k whole d d' at given f bs h.valid t located fits (a - f) (omega arith) in
      let back : f + (a - f) ≡ a = omega arith in (rw back at here) ∙ e

  outside : (a x : ℕ) → (a < f) ⊎ (f + length bs ≤ a) → known a ≡ some x → byte_at d' a ≡ some x
  outside a x out e =
      byte_at-elsewhere k whole d d' at given f bs h.valid t located fits a x (h.byte a x e) out

  pub learn-Holds : d'.size ≡ max d.size (f + length bs) → Holds d' (learn known f bs)
  learn-Holds size = record {
    valid = t.valid;
    byte = λ a x e. elim (dec_lt a f) [
      | yes low ↦ outside a x (inl low) (ground (arith, low, e))
      | no from ↦ elim (dec_lt a (f + length bs)) [
        | yes before ↦ at_window a x (omega arith) before (ground (arith, from, before, e))
        | no high ↦ outside a x (inr (omega arith)) (ground (arith, from, high, e))
      ]
    ];
    below = λ a x e. ground (arith, size, e, h.below a x);
  }

  pub forget-Holds : d'.size ≡ d.size → Holds d' (forget known f (length bs))
  forget-Holds size = record {
    valid = t.valid;
    byte = λ a x e. elim (dec_lt a f) [
      | yes low ↦ outside a x (inl low) (ground (arith, low, e))
      | no from ↦ elim (dec_lt a (f + length bs)) [
        | yes before ↦ absurd (ground (arith, from, before, e))
        | no high ↦ outside a x (inr (omega arith)) (ground (arith, from, high, e))
      ]
    ];
    below = λ a x e. ground (arith, size, e, h.below a x);
  }

pub forget_more :
    (d : Device) (known : Known) (f m n : ℕ)
    → m ≤ n
    → Holds d (forget known f m)
    → Holds d (forget known f n)
forget_more d known f m n le h =
    let less : (a x : ℕ) → forget known f n a ≡ some x → forget known f m a ≡ some x =
      λ (a x : ℕ) (e : forget known f n a ≡ some x). forgotten_less known f m n a x le e in
    record {
      valid = h.valid;
      byte = λ a x e. h.byte a x (less a x e);
      below = λ a x e. h.below a x (less a x e);
    }
  where
    forgotten_less :
        (known : Known) (f m n a x : ℕ)
        → m ≤ n
        → forget known f n a ≡ some x
        → forget known f m a ≡ some x
    forgotten_less known f m n a x le e = ground (arith, le, e)

-- The sequence is good if this call is and the rest are.
pub both-true : (b : Bool) (r : Option Bool) → b ≡ true → r ≡ some true → both b r ≡ some true
both-true b r e e' = rw (e, e') refl
