-- ===== src/Scull/Device/Session/Serves.antt =====
-- That a device of code/examples/scull/main.c serves what was last written.
use linux_drivers_study.Prelude.{
  ℕ, ◌*◌, ◌/◌, ◌^◌, ◌<◌, ◌≡◌, refl, length, List, [], ◌∷◌, none, some, true,
}
use linux_drivers_study.Kernel.Uaccess.{Uaccess, IsLawful}
use linux_drivers_study.Scull.Device.{Device}
use linux_drivers_study.Scull.Device.Shape.{IsValid}
use linux_drivers_study.Scull.Device.Locate.{locate-inside}
use linux_drivers_study.Scull.Device.Session.{Call, reading, writing, Known, session}
use linux_drivers_study.Scull.Device.Session.Holds.{Holds}
use linux_drivers_study.Scull.Device.Session.Reads.{reads_on}
use linux_drivers_study.Scull.Device.Session.Writes.{writes_on}

-- Positions in the first 2 ^ 31 quantum sets, and an allocator whose blocks have the length asked for.
abbrev pub Allowed : {User : Type 0} → ℕ → List (Call User) → Type 0
Allowed itemsize [] = Unit
Allowed itemsize (reading k buf count f user ∷ cs) =
    (f / itemsize < 2 ^ 31) × ((n : ℕ) → length (k.block n) ≡ n) × Allowed itemsize cs
Allowed itemsize (writing k buf count f user ∷ cs) =
    (f / itemsize < 2 ^ 31) × ((n : ℕ) → length (k.block n) ≡ n) × Allowed itemsize cs

session-Holds :
    (U : Uaccess)
    → IsLawful U
    → (cs : List (Call U.User)) (d : Device) (known : Known) → Allowed (d.quantum * d.qset) cs
    → Holds d known
    → session U cs d known ≡ some true
unfolding session
session-Holds U lawful [] d known allowed h = refl
session-Holds U lawful (reading k buf count f user ∷ cs) d known allowed h =
    let v = h.valid in
    let (at, located) =
      locate-inside d.quantum d.qset f v.quantum_positive v.qset_positive v.itemsize_int
        allowed.0 in
    reads_on U lawful k allowed.1 buf count f user d known at h located cs
      (λ d' known' q s h'. session-Holds U lawful cs d' known' (rw (q, s) allowed.2) h')
session-Holds U lawful (writing k buf count f user ∷ cs) d known allowed h =
    let v = h.valid in
    let (at, located) =
      locate-inside d.quantum d.qset f v.quantum_positive v.qset_positive v.itemsize_int
        allowed.0 in
    writes_on U lawful k allowed.1 buf count f user d known at h located cs
      (λ d' known' q s h'. session-Holds U lawful cs d' known' (rw (q, s) allowed.2) h')

-- On a valid device, whatever is read and written in whatever order, at positions in the first 2 ^ 31
-- quantum sets, with copies that fail and memory that runs out: no access leaves a block. Each read
-- returns -EFAULT, or bytes of which each that the device was last given by a write at that position is
-- that byte, at least one of them if one is asked for and the first is known. Each write returns -EFAULT
-- or -ENOMEM or how many bytes it took, at least one if it is given one. A write that fails with -EFAULT
-- leaves unknown only the range that it was to write, one that fails with -ENOMEM nothing.
pub scull_session :
    (U : Uaccess)
    → IsLawful U
    → (cs : List (Call U.User)) (d : Device) → Allowed (d.quantum * d.qset) cs
    → IsValid d
    → session U cs d (λ a. none) ≡ some true
scull_session U lawful cs d allowed v =
    session-Holds U lawful cs d (λ a. none) allowed
      (record { valid = v; byte = λ a x e. absurd (cc); below = λ a x e. absurd (cc) })
