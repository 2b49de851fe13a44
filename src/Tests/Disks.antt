-- ===== src/Tests/Disks.antt =====
-- Runs of the disks of code/vmem_disk and code/tdlbd on small inputs.
use linux_drivers_study.Prelude.{◌≡◌, true, false, length, replicate, length-replicate, arith}
use linux_drivers_study.Prelude.Bytes.{Bytes}
use linux_drivers_study.VmemDisk.{Disk}
use linux_drivers_study.VmemDisk.Transfer.{IsValid}
use linux_drivers_study.VmemDisk.Module.{Answers}

-- A disk of four sectors, and buffers of one sector.
abbrev four_sectors : Disk
four_sectors = record { size = 2048; bytes = replicate 2048 0 }

four_sectors-IsValid : IsValid four_sectors
four_sectors-IsValid = record { whole = length-replicate 2048 0; small = omega arith }

abbrev ones : Bytes
ones = replicate 512 1

abbrev twos : Bytes
twos = replicate 512 2

length-ones : length ones ≡ 512
length-ones = length-replicate 512 1

length-twos : length twos ≡ 512
length-twos = length-replicate 512 2

-- The gendisk is refused.
abbrev no_disk : Answers
no_disk = record { vmalloc = true; make_queue = true; alloc_disk = false }
