-- ===== src/Scull/Device/Session.antt =====
-- Any sequence of reads and writes of a device of code/examples/scull/main.c, at any positions, against
-- what was last written where.
pub mod Holds
pub mod Reads
pub mod Writes
pub mod Serves
use linux_drivers_study.Prelude.{
  ℕ, zero, suc, ◌+◌, ◌-◌, ◌*◌, ◌/◌, ◌^◌, ◌<◌, ◌≤◌, ◌≡◌, ◌⊎◌, inl, inr, refl, arith, length, List,
  [], ◌∷◌, Option, none, some, Bool, true, false, ◌&&◌, ◌||◌, Bool-cases, Option-cases, get_elem?,
  ltb, leb, ◌==◌, if◌then◌else◌, ◌∙◌, ap, sym, min, max, not, take,
}
use linux_drivers_study.Prelude.Bytes.{Bytes, slice}
use linux_drivers_study.Prelude.Int.{ℤ, pos, negsuc}
use linux_drivers_study.Kernel.Uaccess.{Uaccess, IsLawful}
use linux_drivers_study.Scull.Device.{
  Device, Kmalloc, Answer, answer, broken, read_section, write_section,
}

-- A call with what kmalloc does in it, the position of its file, and the memory of its process.
pub data Call (User : Type 0) : Type 0 where
  reading writing : Kmalloc → (buf count f_pos : ℕ) → User → Call User

-- What is known of each position: the byte last written, or nothing.
abbrev pub Known : Type 0
Known = ℕ → Option ℕ

abbrev pub learn : Known → ℕ → Bytes → Known
learn known f w a = if leb f a && ltb a (f + length w) then get_elem? w (a - f) else known a

abbrev pub forget : Known → ℕ → ℕ → Known
forget known f n a = if leb f a && ltb a (f + n) then none else known a

-- A write that fails with -EFAULT may have changed any byte that it was to write.
abbrev pub after_write : Known → (f_pos count : ℕ) → ℤ → Bytes → Known
after_write known f count (pos n) w = learn known f w
after_write known f count (negsuc e) w = if e == 13 then forget known f count else known

-- The bytes of a read from `f` on are those that are known.
abbrev pub agrees : Known → ℕ → Bytes → Bool
agrees known f [] = true
agrees known f (b ∷ bs) =
    (elim (known f) [ none ↦ true | some x ↦ b == x ]) && agrees known (f + 1) bs

abbrev pub is_none : Option ℕ → Bool
is_none none = true
is_none (some x) = false

-- A read may fail with -EFAULT. It returns known bytes, and some if it is asked for some and the first is
-- known.
abbrev pub good_read : Known → (f_pos count : ℕ) → ℤ → Bytes → Bool
good_read known f count (pos n) w =
    agrees known f w && (not (n == 0) || (count == 0) || is_none (known f))
good_read known f count (negsuc e) w = e == 13

-- A write may fail with -EFAULT or -ENOMEM. Otherwise it takes some bytes if it is given some.
abbrev pub good_write : (count : ℕ) → ℤ → Bool
good_write count (pos n) = leb n count && (not (n == 0) || (count == 0))
good_write count (negsuc e) = (e == 13) || (e == 11)

abbrev pub both : Bool → Option Bool → Option Bool
both b none = none
both b (some c) = some (b && c)

module _ (U : Uaccess) where
  -- The bytes at `buf` that a result says were moved.
  abbrev pub moved : U.User → ℕ → ℤ → Bytes
  moved user buf (pos n) = take n (U.read_user user buf n)
  moved user buf (negsuc e) = []

  -- `none`: an access that C leaves undefined. Otherwise, whether every call did well.
  unfoldable pub session : List (Call U.User) → Device → Known → Option Bool
  session [] d known = some true
  session (reading k buf count f user ∷ cs) d known =
      elim (read_section U k d.quantum d.qset buf count f d user) [
        | broken ↦ none
        | answer ret f' d' user' given ↦
            both (good_read known f count ret (moved user' buf ret)) (session cs d' known)
      ]
  session (writing k buf count f user ∷ cs) d known =
      elim (write_section U k d.quantum d.qset buf count f d user) [
        | broken ↦ none
        | answer ret f' d' user' given ↦
            both (good_write count ret)
              (session cs d' (after_write known f count ret (moved user buf ret)))
      ]
