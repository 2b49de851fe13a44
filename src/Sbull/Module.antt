-- ===== src/Sbull/Module.antt =====
-- Setting up and tearing down the disks of code/examples/sbull/sbull.c, whose setup_device, init and exit are those
-- of code/vmem_disk/vmem_disk.c up to the three request modes, the number of disks and the names.
use linux_drivers_study.Prelude.{
  ℕ, ◌+◌, ◌*◌, ◌≡◌, ◌==◌, if◌then◌else◌, refl, Bool, false, suc, List,
}
use linux_drivers_study.Prelude.Bytes.{Bytes}
use linux_drivers_study.Prelude.Int.{ℤ, pos, negsuc}
use linux_drivers_study.VmemDisk.{Disk}
use linux_drivers_study.VmemDisk.Module
use linux_drivers_study.VmemDisk.Module.{
  Answers, Setup, Slot, Loaded, Event, blkdev, acquired, returned,
}

-- What a queue calls: sbull_request, sbull_full_request or sbull_make_request.
pub data Handler : Type 0 where
  simple full direct : Handler

-- RM_FULL is 1 and RM_NOQUEUE is 2; RM_SIMPLE and every other mode is the simple one.
unfoldable pub handler : ℤ → Handler
handler (pos n) = if n == 1 then full else if n == 2 then direct else simple
handler (negsuc n) = simple

-- The size and the data of a disk that is set up; the size is an `int`, which the product does not pass.
pub made_disk : (nsectors hardsect_size : ℕ) → Bytes → Disk
made_disk nsectors hardsect_size stored = record { size = nsectors * hardsect_size; bytes = stored }

-- The modes differ in the handler only; each fails alike.
pub setup_device : ℕ → Answers → Setup
setup_device = Module.setup_device

-- The name "sbull"; the name "sbd" is that of vmem_disk.
abbrev pub sbull : ℕ
sbull = 3

-- `ndevices` is a parameter of the module.
unfoldable pub init : ℕ → ℤ → Bool → (ℕ → Answers) → Loaded
init = Module.init_with sbull Module.sbd

pub exit : ℕ → (ℕ → Slot) → List Event
exit = Module.exit_with sbull

-- If the array of devices is refused, the name sbull stays registered, whatever major was given.
name_kept :
    (ndevices major : ℕ) (answers : ℕ → Answers)
    → let events = (init ndevices (pos (suc major)) false answers).events in
      acquired (blkdev sbull) events ≡ returned (blkdev sbull) events + 1
unfolding init Module.init_with
name_kept ndevices major answers = refl
