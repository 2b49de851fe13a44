-- ===== src/Cdev.antt =====
-- Module init and exit of the character drivers: code/ch6/globalmem.c,
-- code/ch6/multi_globalmem.c, code/ch7/globalmem.c, code/ch6/tdlcd.c, code/globalfifo/ch8,
-- code/globalfifo/ch9, code/tdlcd/tdlcd_fifo.c and code/second/second.c differ in the number of
-- devices, and in how their exits delete them. The kernel's answers are arguments; what a run acquires and gives back is recorded.
pub mod Balance
use linux_drivers_study.Prelude.{ℕ, zero, suc, ◌+◌, ◌==◌, if◌then◌else◌, Bool, true, false, ◌&&◌}
use linux_drivers_study.Prelude.{List, [], ◌∷◌, ◌++◌}
use linux_drivers_study.Prelude.Int.{ℤ, pos, is_negative}
use linux_drivers_study.Kernel.Errno.{enomem}

-- A range of device numbers (major, first minor 0, count), the array of devices, one `cdev`.
pub data Resource : Type 0 where
  region : (major count : ℕ) → Resource
  memory : Resource
  cdev : (index : ℕ) → Resource

-- `refused`: the kernel did not give the resource.
pub data Event : Type 0 where
  got refused gave_back : Resource → Event

-- register_chrdev_region; alloc_chrdev_region with the major that it chose; whether kzalloc gave
-- memory; cdev_add of each device.
pub record Answers : Type 0 where
  pub register_region : ℤ
  pub alloc_region : ℤ
  pub alloc_major : ℕ
  pub kzalloc : Bool
  pub cdev_add : ℕ → ℤ

pub record Loaded : Type 0 where
  pub ret : ℤ
  pub major : ℕ
  pub events : List Event

-- An error of cdev_add is printed and dropped.
unfoldable pub setup_cdev : Answers → ℕ → Event
setup_cdev a index = elim (a.cdev_add index) [
  | pos zero ↦ got (cdev index)
  | _ ↦ refused (cdev index)
]

-- for (i = index; i < index + n; i++) setup_cdev(devp + i, i)
unfoldable pub setup_all : Answers → ℕ → ℕ → List Event
setup_all a zero index = []
setup_all a (suc n) index = setup_cdev a index ∷ setup_all a n (index + 1)

-- What follows the allocation of the device numbers.
unfoldable pub with_region : ℕ → ℕ → Answers → Loaded
with_region count major a =
    if a.kzalloc
    then record {
      ret = pos 0;
      major = major;
      events = got (region major count) ∷ got memory ∷ setup_all a count 0;
    }
    else record {
      ret = enomem;
      major = major;
      events = got (region major count) ∷ refused memory ∷ gave_back (region major count) ∷ [];
    }

-- The dynamic branch stores MAJOR(devno) also when no number was given; `devno` is then what
-- MKDEV(0, 0) made it.
unfoldable pub init : ℕ → ℕ → Answers → Loaded
unfolding with_region
init count major a =
    let dynamic = major == 0 in
    let ret = if dynamic then a.alloc_region else a.register_region in
    let major' = if dynamic then (if is_negative ret then 0 else a.alloc_major) else major in
    if is_negative ret
    then record { ret = ret; major = major'; events = refused (region major' count) ∷ [] }
    else with_region count major' a

-- What `open` returns, and which device of the array it stores in `filp->private_data`.
pub record Opened : Type 0 where
  pub ret : ℤ
  pub private_data : ℕ

-- filp->private_data = devp
pub open_first : Opened
open_first = record { ret = pos 0; private_data = 0 }

-- container_of(inode->i_cdev, ...), the device whose `cdev` has this minor number.
pub open_minor : ℕ → Opened
open_minor minor = record { ret = pos 0; private_data = minor }

-- `release` of the drivers that keep nothing for an open file.
pub release : ℤ
release = pos 0

-- for (i = index; i < index + n; i++) cdev_del(&(devp + i)->cdev)
unfoldable pub delete_all : ℕ → ℕ → List Event
delete_all zero index = []
delete_all (suc n) index = gave_back (cdev index) ∷ delete_all n (index + 1)

-- The exit of all of them but the two tdlcd drivers.
unfoldable pub exit : ℕ → ℕ → List Event
exit count major = delete_all count 0 ++ (gave_back memory ∷ gave_back (region major count) ∷ [])

-- `tdlcd_exit` of code/ch6/tdlcd.c and code/tdlcd/tdlcd_fifo.c: one more cdev_del after the loop.
unfoldable pub exit_twice : ℕ → ℕ → List Event
exit_twice count major =
    delete_all count 0
    ++ (gave_back (cdev 0) ∷ gave_back memory ∷ gave_back (region major count) ∷ [])
