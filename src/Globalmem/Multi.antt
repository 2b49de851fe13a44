-- ===== src/Globalmem/Multi.antt =====
-- code/ch6/multi_globalmem.c: ten memories. `open` stores in the file which device the inode names,
-- and each handler works on that one as the driver of code/ch6/globalmem.c does on its only one.
use linux_drivers_study.Prelude.{
  ℕ, ◌≡◌, ◌≢◌, ◌⊎◌, false, arith, List, none, some, get_elem?, get_elem?-set_ne, set,
}
use linux_drivers_study.Prelude.Bytes.{Bytes}
use linux_drivers_study.Prelude.Int.{ℤ, pos}
use linux_drivers_study.Kernel.Outcome.{done, blocked, misuse, fault, M}
use linux_drivers_study.Kernel.Uaccess.{Uaccess}
use linux_drivers_study.Cdev
use linux_drivers_study.Cdev.{Answers, Loaded, Event}
use linux_drivers_study.Globalmem
use linux_drivers_study.Globalmem.{Task}

-- DEVICE_NUM
abbrev pub device_num : ℕ
device_num = 10

-- The array of devices, and the open file: the device it is bound to and its position.
pub record Files (User : Type 0) : Type 0 where
  pub devices : List Bytes
  pub private_data : ℕ
  pub f_pos : ℤ
  pub user : User

-- container_of(inode->i_cdev, struct globalmem_dev, cdev)
unfoldable pub open_device : {User : Type 0} → ℕ → M (Files User) ℤ
open_device minor fs = done (pos 0) (record fs { private_data = minor })

-- A handler of the single device, run on `filp->private_data`.
unfoldable pub on_device : {User A : Type 0} → M (Task User) A → M (Files User) A
on_device h fs = elim (get_elem? fs.devices fs.private_data) [
  | none ↦ fault
  | some mem ↦ elim (h (record { mem = mem; held = false; f_pos = fs.f_pos; user = fs.user })) [
    | done a t ↦ done a (record fs {
      devices = set fs.devices fs.private_data t.mem;
      f_pos = t.f_pos;
      user = t.user;
    })
    | blocked ↦ blocked
    | misuse ↦ misuse
    | fault ↦ fault
  ]
]

pub ioctl : {User : Type 0} → ℕ → M (Files User) ℤ
ioctl cmd = on_device (Globalmem.ioctl cmd)

pub llseek : {User : Type 0} → ℤ → ℕ → M (Files User) ℤ
llseek offset orig = on_device (Globalmem.llseek offset orig)

pub read : (U : Uaccess) → ℕ → ℕ → M (Files U.User) ℤ
read U buf size = on_device (Globalmem.read U buf size)

unfoldable pub write : (U : Uaccess) → ℕ → ℕ → M (Files U.User) ℤ
write U buf size = on_device (Globalmem.write U buf size)

pub release : ℤ
release = Cdev.release

pub init : ℕ → Answers → Loaded
init = Cdev.init device_num

pub exit : ℕ → List Event
exit = Cdev.exit device_num

on_device_isolated :
    {User A : Type 0} (h : M (Task User) A) (fs : Files User) (j : ℕ) (a : A) (end : Files User)
    → fs.private_data ≢ j
    → on_device h fs ≡ done a end
    → (get_elem? end.devices j ≡ get_elem? fs.devices j) × (end.private_data ≡ fs.private_data)
unfolding on_device
on_device_isolated h fs j a end ne e = grind (arith, get_elem?-set_ne)

-- Opened on one device, `ioctl`, `read` and `write` leave every other device as it was, and the file
-- stays bound to its device.
pub devices_isolated :
    (U : Uaccess) (fs opened end : Files U.User) (minor j buf size cmd : ℕ) {r x : ℤ}
    → minor ≢ j
    → open_device minor fs ≡ done r opened
    → (ioctl cmd opened ≡ done x end)
      ⊎ (read U buf size opened ≡ done x end)
      ⊎ (write U buf size opened ≡ done x end)
    → (get_elem? end.devices j ≡ get_elem? fs.devices j) × (end.private_data ≡ minor)
unfolding open_device ioctl read write
devices_isolated U fs opened end minor j buf size cmd {x} ne at call = ground (
  arith,
  on_device_isolated (Globalmem.ioctl cmd) opened j x end,
  on_device_isolated (Globalmem.read U buf size) opened j x end,
  on_device_isolated (Globalmem.write U buf size) opened j x end,
)
