-- ===== src/Kernel/Uaccess.antt =====
-- `copy_to_user`, `copy_from_user` and what `memcpy` does where it leaves the result open, as an interface
-- that a driver's section takes.
use linux_drivers_study.Prelude.{ℕ, ◌==◌, ◌≡◌, refl, if◌then◌else◌, length, ap}
use linux_drivers_study.Prelude.{ltb, ◌+◌, arith, zero, suc, [], ◌∷◌, ◌<◌, ◌≤◌}
use linux_drivers_study.Prelude.Bytes.{Bytes, slice}

-- `User` is the memory of the calling process. Both calls return how many bytes were not copied.
-- `copy_from_user` is given the old bytes of the kernel's buffer, and returns the new ones: after
-- a fault part of the buffer may have been written. `overlapped` gives the bytes that memcpy leaves at
-- the `n` bytes from `dst` on if the `n` bytes from `src` on overlap them, which C does not define.
pub record Uaccess : Type 1 where
  pub User : Type 0
  pub read_user : User → ℕ → ℕ → Bytes
  pub copy_to_user : User → ℕ → Bytes → ℕ × User
  pub copy_from_user : User → ℕ → Bytes → ℕ × Bytes
  pub overlapped : Bytes → (dst src n : ℕ) → Bytes

-- The documented behaviour: a copy that leaves nothing has moved all bytes, and a copy into the
-- kernel's buffer stays inside it.
pub record IsLawful (U : Uaccess) : Type 0 where
  pub to_user :
      (u : U.User) (addr : ℕ) (bs : Bytes)
      → (U.copy_to_user u addr bs).0 ≡ 0
      → U.read_user (U.copy_to_user u addr bs).1 addr (length bs) ≡ bs
  pub from_user :
      (u : U.User) (addr : ℕ) (old : Bytes)
      → (U.copy_from_user u addr old).0 ≡ 0
      → (U.copy_from_user u addr old).1 ≡ U.read_user u addr (length old)
  pub from_user_length :
      (u : U.User) (addr : ℕ) (old : Bytes) → length (U.copy_from_user u addr old).1 ≡ length old

-- A memcpy that moves the bytes one by one upwards, or all through a buffer, and so is right for a
-- destination below its source. The platform may give it; no document does.
pub record CopiesUp (U : Uaccess) : Type 0 where
  pub upwards :
      (mem : Bytes) (dst src n : ℕ)
      → dst ≤ src
      → src + n ≤ length mem
      → U.overlapped mem dst src n ≡ slice mem src n

-- A concrete process: byte addresses, of which those below 16 are not mapped.
module _ where
  abbrev range : (ℕ → ℕ) → ℕ → ℕ → Bytes
  range u a zero = []
  range u a (suc n) = u a ∷ range u (a + 1) n

  abbrev write_range : (ℕ → ℕ) → ℕ → Bytes → ℕ → ℕ
  write_range u a [] x = u x
  write_range u a (b ∷ bs) x = if x == a then b else write_range u (a + 1) bs x

  abbrev pub flat : Uaccess
  flat = record {
    User = ℕ → ℕ;
    read_user = range;
    copy_to_user = λ u a bs. if ltb a 16 then (length bs, u) else (0, write_range u a bs);
    copy_from_user = λ u a old. if ltb a 16 then (length old, old) else (0, range u a (length old));
    overlapped = λ mem dst src n. slice mem src n;
  }

length-range : (u : ℕ → ℕ) (a n : ℕ) → length (range u a n) ≡ n
length-range u a zero = refl
length-range u a (suc n) = ap suc (length-range u (a + 1) n)

write_range_below : (u : ℕ → ℕ) (a x : ℕ) (bs : Bytes) → x < a → write_range u a bs x ≡ u x
write_range_below u a x [] h = refl
write_range_below u a x (b ∷ bs) h = ground (arith, write_range_below u (a + 1) x bs)

range_ext : (u v : ℕ → ℕ) (a n : ℕ) → ((x : ℕ) → a ≤ x → u x ≡ v x) → range u a n ≡ range v a n
range_ext u v a zero h = refl
range_ext u v a (suc n) h = ground (arith, h a, range_ext u v (a + 1) n (λ x p. h x (omega arith)))

range-write_range : (u : ℕ → ℕ) (a : ℕ) (bs : Bytes) → range (write_range u a bs) a (length bs) ≡ bs
range-write_range u a [] = refl
range-write_range u a (b ∷ bs) = ground (
  arith,
  range-write_range u (a + 1) bs,
  range_ext (write_range u a (b ∷ bs)) (write_range u (a + 1) bs) (a + 1) (length bs)
      (λ x p. ground arith),
)

flat_to_user :
    (u : ℕ → ℕ) (addr : ℕ) (bs : Bytes)
    → (flat.copy_to_user u addr bs).0 ≡ 0
    → flat.read_user (flat.copy_to_user u addr bs).1 addr (length bs) ≡ bs
flat_to_user u addr [] h = refl
flat_to_user u addr (b ∷ bs) h = ground (arith, range-write_range u addr (b ∷ bs))

flat_from_user :
    (u : ℕ → ℕ) (addr : ℕ) (old : Bytes)
    → (flat.copy_from_user u addr old).0 ≡ 0
    → (flat.copy_from_user u addr old).1 ≡ flat.read_user u addr (length old)
flat_from_user u addr [] h = ground arith
flat_from_user u addr (b ∷ old) h = ground arith

flat_from_user_length :
    (u : ℕ → ℕ) (addr : ℕ) (old : Bytes) → length (flat.copy_from_user u addr old).1 ≡ length old
flat_from_user_length u addr old = ground (arith, length-range u addr (length old))

pub flat-CopiesUp : CopiesUp flat
flat-CopiesUp = record { upwards = λ mem dst src n below inside. refl }

pub flat-IsLawful : IsLawful flat
flat-IsLawful = record {
  to_user = flat_to_user;
  from_user = flat_from_user;
  from_user_length = flat_from_user_length;
}
