-- ===== src/Scull/Trim/Balance.antt =====
-- The memory that a device of code/examples/scull/main.c gets and frees over its life.
use linux_drivers_study.Prelude.{
  ℕ, ◌+◌, ◌*◌, ◌/◌, ◌^◌, ◌<◌, ◌≡◌, inl, inr, refl, arith, length, List, [], ◌∷◌, Option, none, some,
}
use native.Mathlib.Decide.{dec_lt}
use linux_drivers_study.Kernel.Uaccess.{Uaccess, IsLawful}
use linux_drivers_study.Scull.Device.{
  Device, Kmalloc, Answer, answer, broken, Place, read_section, write_section,
}
use linux_drivers_study.Scull.Device.Shape.{IsValid, count_qsets}
use linux_drivers_study.Scull.Device.Locate.{locate-inside, position-locate}
use linux_drivers_study.Scull.Device.Write.{Wrote, write_section_lem}
use linux_drivers_study.Scull.Device.Read.{DoesRead, read_section_lem}
use linux_drivers_study.Scull.Device.Session.Reads.{past_size}
use linux_drivers_study.Scull.Trim.{trim}
use linux_drivers_study.Scull.Trim.Memory.{trim_lem}

-- A trim with the settings of that time, or a read or write.
pub data Use (User : Type 0) : Type 0 where
  trimming : (quantum qset : ℕ) → Use User
  reading writing : Kmalloc → (buf count f_pos : ℕ) → User → Use User

-- The device, and how many blocks it was given and freed so far.
pub record Account : Type 0 where
  pub device : Device
  pub given : ℕ
  pub freed : ℕ

abbrev pub booked : {User : Type 0} → Account → Answer User → Option Account
booked a broken = none
booked a (answer ret f' d' user' given) = some (record a { device = d'; given = a.given + given })

module _ (U : Uaccess) where
  unfoldable pub use_device : Use U.User → Account → Option Account
  use_device (trimming quantum qset) a = elim (trim quantum qset a.device) [
    | none ↦ none
    | some t ↦ some (record a { device = t.device; freed = a.freed + t.freed })
  ]
  use_device (reading k buf count f user) a =
      booked a (read_section U k a.device.quantum a.device.qset buf count f a.device user)
  use_device (writing k buf count f user) a =
      booked a (write_section U k a.device.quantum a.device.qset buf count f a.device user)

  unfoldable pub use_all : List (Use U.User) → Account → Option Account
  use_all [] a = some a
  use_all (u ∷ us) a = elim (use_device u a) [ none ↦ none | some a' ↦ use_all us a' ]

-- Positions in the first 2 ^ 31 quantum sets of the sizes that the last trim set, which are legal, and an
-- allocator whose blocks have the length asked for.
abbrev pub Allowed : {User : Type 0} → (itemsize : ℕ) → List (Use User) → Type 0
Allowed itemsize [] = Unit
Allowed itemsize (trimming quantum qset ∷ us) =
    (0 < quantum) × (0 < qset) × (quantum * qset < 2 ^ 31) × Allowed (quantum * qset) us
Allowed itemsize (reading k buf count f user ∷ us) =
    (f / itemsize < 2 ^ 31) × ((n : ℕ) → length (k.block n) ≡ n) × Allowed itemsize us
Allowed itemsize (writing k buf count f user ∷ us) =
    (f / itemsize < 2 ^ 31) × ((n : ℕ) → length (k.block n) ≡ n) × Allowed itemsize us

-- The blocks given are those freed and those that the device holds.
pub record IsBalanced (a : Account) : Type 0 where
  pub valid : IsValid a.device
  pub balance : a.given ≡ a.freed + count_qsets a.device.qsets

-- What one use leaves: a balanced account, with the quantum sets of this size.
abbrev pub Leaves : (itemsize : ℕ) → Option Account → Type 0
Leaves itemsize none = ⊥
Leaves itemsize (some a) = IsBalanced a × (a.device.quantum * a.device.qset ≡ itemsize)

-- A call that counts the blocks it was given.
abbrev pub Counts : {User : Type 0} → Device → Answer User → Type 0
Counts d broken = ⊥
Counts d (answer ret f' d' user' given) =
    IsValid d'
    × (d'.quantum * d'.qset ≡ d.quantum * d.qset)
    × (count_qsets d'.qsets ≡ count_qsets d.qsets + given)

booked-Leaves :
    {User : Type 0} (a : Account) (r : Answer User)
    → IsBalanced a
    → Counts a.device r
    → Leaves (a.device.quantum * a.device.qset) (booked a r)
booked-Leaves a broken b c = absurd c
booked-Leaves a (answer ret f' d' user' given) b c =
    (record { valid = c.0; balance = omega (arith, b.balance, c.2) }, c.1)

write-Counts :
    (U : Uaccess) (k : Kmalloc) (buf count f : ℕ) (d : Device) (user : U.User) (at : Place)
    (r : Answer U.User)
    → Wrote U k buf count f d user at r
    → Counts d r
write-Counts U k buf count f d user at broken p = absurd p
write-Counts U k buf count f d user at (answer ret f' d' user' given)
      (inl (e, moves, size, len, t)) =
    (t.valid, rw (t.quantum_kept, t.qset_kept) refl, t.counted)
write-Counts U k buf count f d user at (answer ret f' d' user' given)
      (inr (inl (e, same, size, (bs, len, t)))) =
    (t.valid, rw (t.quantum_kept, t.qset_kept) refl, t.counted)
write-Counts U k buf count f d user at (answer ret f' d' user' given) (inr (inr (e, same, g))) =
    (g.valid, rw (g.quantum_kept, g.qset_kept) refl, g.counted)

read-Counts :
    (U : Uaccess) (buf count f : ℕ) (d : Device) (at : Place) (r : Answer U.User)
    → DoesRead U buf count f d at r
    → Counts d r
read-Counts U buf count f d at broken p = absurd p
read-Counts U buf count f d at (answer ret f' d' user' given) (g, rest) =
    (g.valid, rw (g.quantum_kept, g.qset_kept) refl, g.counted)

module _ (U : Uaccess) (lawful : IsLawful U) (a : Account) (b : IsBalanced a) where
  abbrev itemsize : ℕ
  itemsize = a.device.quantum * a.device.qset

  pub trimming-Leaves :
      (quantum qset : ℕ)
      → 0 < quantum
      → 0 < qset
      → quantum * qset < 2 ^ 31
      → Leaves (quantum * qset) (use_device U (trimming quantum qset) a)
  unfolding use_device
  trimming-Leaves quantum qset q s small =
      rw (use_device, trim_lem quantum qset a.device b.valid)
        (
          record {
            valid = record {
              quantum_positive = q;
              qset_positive = s;
              itemsize_int = small;
              shaped = tt;
            };
            balance = omega (arith, b.balance);
          },
          refl,
        )

  pub reading-Leaves :
      (k : Kmalloc) (buf count f : ℕ) (user : U.User)
      → f / itemsize < 2 ^ 31
      → Leaves itemsize (use_device U (reading k buf count f user) a)
  unfolding use_device
  reading-Leaves k buf count f user near =
      let d = a.device in
      let v = b.valid in
      let (at, located) =
        locate-inside d.quantum d.qset f v.quantum_positive v.qset_positive v.itemsize_int near in
      let place = position-locate d.quantum d.qset f at located in
      booked-Leaves a (read_section U k d.quantum d.qset buf count f d user) b
        (elim (dec_lt f d.size) [
          | yes inside ↦ read-Counts U buf count f d at _ (
              read_section_lem U lawful k buf count f d user at (omega (arith, place)) v located
                inside)
          | no past ↦ rw (past_size U k buf count f user d (omega arith)) (v, refl, omega arith)
        ])

  pub writing-Leaves :
      (k : Kmalloc) (buf count f : ℕ) (user : U.User)
      → ((n : ℕ) → length (k.block n) ≡ n)
      → f / itemsize < 2 ^ 31
      → Leaves itemsize (use_device U (writing k buf count f user) a)
  unfolding use_device
  writing-Leaves k buf count f user whole near =
      let d = a.device in
      let v = b.valid in
      let (at, located) =
        locate-inside d.quantum d.qset f v.quantum_positive v.qset_positive v.itemsize_int near in
      let place = position-locate d.quantum d.qset f at located in
      booked-Leaves a (write_section U k d.quantum d.qset buf count f d user) b (
        write-Counts U k buf count f d user at _ (
          write_section_lem U lawful k whole buf count f d user at (omega (arith, place)) v
            located))
