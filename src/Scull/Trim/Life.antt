-- ===== src/Scull/Trim/Life.antt =====
-- A device of code/examples/scull/main.c from init to cleanup.
use linux_drivers_study.Prelude.{
  ℕ, ◌+◌, ◌*◌, ◌^◌, ◌<◌, ◌≡◌, refl, List, [], ◌∷◌, Option, none, some,
}
use linux_drivers_study.Kernel.Uaccess.{Uaccess, IsLawful}
use linux_drivers_study.Scull.Device.{Device}
use linux_drivers_study.Scull.Trim.{Trimmed, trim}
use linux_drivers_study.Scull.Trim.Memory.{trim_lem}
use linux_drivers_study.Scull.Trim.Balance.{
  Use, trimming, reading, writing, Account, use_device, use_all, Allowed, IsBalanced, Leaves,
  trimming-Leaves, reading-Leaves, writing-Leaves,
}

-- What all the uses leave.
abbrev pub Ends : Option Account → Type 0
Ends none = ⊥
Ends (some a) = IsBalanced a

module _ (U : Uaccess) (us : List (Use U.User)) (itemsize : ℕ)
    (rest : (a : Account)
      → IsBalanced a
      → a.device.quantum * a.device.qset ≡ itemsize
      → Ends (use_all U us a)) where
  goes_on :
      (u : Use U.User) (a : Account)
      → (r : Option Account) → use_device U u a ≡ r
      → Leaves itemsize r
      → Ends (use_all U (u ∷ us) a)
  unfolding use_all
  goes_on u a none e l = absurd l
  goes_on u a (some a') e l = rw (use_all, e) (rest a' l.0 l.1)

uses-Ends :
    (U : Uaccess)
    → IsLawful U
    → (us : List (Use U.User)) (a : Account) → Allowed (a.device.quantum * a.device.qset) us
    → IsBalanced a
    → Ends (use_all U us a)
unfolding use_all
uses-Ends U lawful [] a allowed b = b
uses-Ends U lawful (trimming quantum qset ∷ us) a allowed b =
    goes_on U us (quantum * qset) (λ a' b' e. uses-Ends U lawful us a' (rw e allowed.3) b')
      (trimming quantum qset) a _ refl
      (trimming-Leaves U lawful a b quantum qset allowed.0 allowed.1 allowed.2)
uses-Ends U lawful (reading k buf count f user ∷ us) a allowed b =
    goes_on U us (a.device.quantum * a.device.qset)
      (λ a' b' e. uses-Ends U lawful us a' (rw e allowed.2) b') (reading k buf count f user) a _
      refl (reading-Leaves U lawful a b k buf count f user allowed.0)
uses-Ends U lawful (writing k buf count f user ∷ us) a allowed b =
    goes_on U us (a.device.quantum * a.device.qset)
      (λ a' b' e. uses-Ends U lawful us a' (rw e allowed.2) b') (writing k buf count f user) a _
      refl (writing-Leaves U lawful a b k buf count f user allowed.1 allowed.0)

-- A device as init leaves it.
abbrev pub empty_device : (quantum qset : ℕ) → Device
empty_device quantum qset = record { qsets = []; quantum = quantum; qset = qset; size = 0 }

abbrev pub opened : (quantum qset : ℕ) → Account
opened quantum qset = record { device = empty_device quantum qset; given = 0; freed = 0 }

-- A device that is used and then trimmed, as cleanup does: as many blocks have been freed as it was
-- given, and no access left a block or an array.
abbrev pub AllFreed : Option Account → (quantum qset : ℕ) → Type 0
AllFreed none quantum qset = ⊥
AllFreed (some a) quantum qset =
    (t : Trimmed) × (trim quantum qset a.device ≡ some t)
    × (a.given ≡ a.freed + t.freed)
    × (t.device ≡ empty_device quantum qset)

Ends-AllFreed : (r : Option Account) (quantum qset : ℕ) → Ends r → AllFreed r quantum qset
Ends-AllFreed none quantum qset e = absurd e
Ends-AllFreed (some a) quantum qset b = (_, trim_lem quantum qset a.device b.valid, b.balance, refl)

-- From a device as init leaves it, over any sequence of trims, each with the legal settings of its time,
-- and of reads and writes at positions in the first 2 ^ 31 quantum sets, whatever kmalloc and the copies
-- do: no access leaves a block, and after the trim of cleanup, which frees all that the device still
-- holds, as many blocks have been freed as kmalloc gave.
pub scull_frees_all :
    (U : Uaccess)
    → IsLawful U
    → (us : List (Use U.User)) (quantum qset last_quantum last_qset : ℕ) → 0 < quantum
    → 0 < qset
    → quantum * qset < 2 ^ 31
    → Allowed (quantum * qset) us
    → AllFreed (use_all U us (opened quantum qset)) last_quantum last_qset
scull_frees_all U lawful us quantum qset last_quantum last_qset q s small allowed =
    Ends-AllFreed (use_all U us (opened quantum qset)) last_quantum last_qset (
      uses-Ends U lawful us (opened quantum qset) allowed (record {
        valid = record {
          quantum_positive = q;
          qset_positive = s;
          itemsize_int = small;
          shaped = tt;
        };
        balance = refl;
      }))
