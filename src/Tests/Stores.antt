-- ===== src/Tests/Stores.antt =====
-- Requests to the disks behind their common interface.
use linux_drivers_study.Prelude.{
  ℕ, ◌*◌, ◌≡◌, List, [], ◌∷◌, some, refl, true, false, replicate, length-replicate, arith, length,
}
use linux_drivers_study.Prelude.Bytes.{Bytes}
use linux_drivers_study.Block.{Request, write, read, Fit, serve_all, answers}
use linux_drivers_study.Prelude.Int.{pos}
use linux_drivers_study.Kernel.Errno.{eio}
use linux_drivers_study.VmemDisk
use linux_drivers_study.VmemDisk.{Disk}
use linux_drivers_study.VmemDisk.Queue.{queue_answer, queue_effect, Reached, request_lem}
use linux_drivers_study.VmemDisk.Transfer
use linux_drivers_study.VmemDisk.Store.{Alike, alike_bio, vmem_disk_driver, vmem_disk_serves}
use linux_drivers_study.VmemDisk.Segments.{Even}
use linux_drivers_study.Nvm.Highmem.{Highmem}
use linux_drivers_study.Nvm.Module
use linux_drivers_study.Nvm.Module.{Answers}
use linux_drivers_study.Nvm.Request.{Device}
use linux_drivers_study.Nvm.Request.Segments

abbrev stored : Bytes
stored = replicate 2048 0

abbrev disk : Disk
disk = record { size = 2048; bytes = stored }

disk-IsValid : Transfer.IsValid disk
disk-IsValid = record { whole = length-replicate 2048 0; small = omega arith }

abbrev device : Device
device = record { nvmdev_capacity = 4; nvmdev_data = stored }

abbrev filled : (n b : ℕ) → Bytes
filled n b = replicate n b

-- A segment of two sectors is written, then two segments of a sector and one of two are read.
abbrev requests : List Request
requests =
    write 1 (filled 1024 7 ∷ [])
    ∷ read 2 (filled 512 0 ∷ filled 512 0 ∷ [])
    ∷ read 0 (filled 1024 0 ∷ filled 1024 0 ∷ [])
    ∷ []

abbrev full : (n b : ℕ) → length (filled n b) ≡ n
full n b = length-replicate n b

one_of_two : (b : ℕ) → Even (2 * 512) (filled 1024 b ∷ [])
one_of_two b = (full 1024 b, tt)

two_of_one : Even (1 * 512) (filled 512 0 ∷ filled 512 0 ∷ [])
two_of_one = (full 512 0, (full 512 0, tt))

requests-Fit : Fit Alike (length stored) requests
requests-Fit =
    let size = length-replicate {A = ℕ} 2048 0 in
    (
      (2, one_of_two 7),
      omega (arith, size, full 1024 7),
      (
        (1, two_of_one),
        omega (arith, size, full 512 0),
        ((2, (full 1024 0, one_of_two 0)), omega (arith, size, full 1024 0), tt),
      ),
    )

-- Segments of unequal lengths, which the ram device takes.
abbrev uneven_requests : List Request
uneven_requests =
    write 1 (filled 1024 7 ∷ filled 512 8 ∷ []) ∷ read 0 (filled 512 0 ∷ filled 1024 0 ∷ []) ∷ []

abbrev before : Bytes
before = 1 ∷ 2 ∷ 3 ∷ []

abbrev behind : Bytes
behind = 4 ∷ []

vmem_disk_serves_example : serve_all vmem_disk_driver requests disk ≡ some (answers requests stored)
vmem_disk_serves_example = vmem_disk_serves requests disk disk-IsValid requests-Fit

-- A write of a segment of two sectors, a request that is no file system request, and a read of the two.
abbrev queue : List VmemDisk.Request
queue =
    record { fs = true; bios = alike_bio true 1 (filled 1024 7 ∷ []) ∷ [] }
    ∷ record { fs = false; bios = [] }
    ∷ record { fs = true; bios = alike_bio false 1 (filled 512 0 ∷ filled 512 0 ∷ []) ∷ [] }
    ∷ []

request_lem_example :
    (d' : Disk) × (VmemDisk.request disk queue
      ≡ some (record {
        disk = d';
        status = pos 0 ∷ eio ∷ pos 0 ∷ [];
        buffers = queue_answer queue stored;
      }))
    × Reached disk d' (queue_effect queue stored)
request_lem_example =
    let size = length-replicate {A = ℕ} 2048 0 in
    request_lem queue disk stored disk-IsValid refl (
      ((2, full 1024 7, one_of_two 7, omega (arith, size, full 1024 7)), tt),
      (tt, (((1, full 512 0, two_of_one, omega (arith, size, full 512 0)), tt), tt)),
    )

abbrev unmapped : Highmem
unmapped = record { virt_addr = 0; size = 0; curr_addr = 0 }

abbrev one_sector : List Request
one_sector = write 9 (filled 512 7 ∷ []) ∷ read 9 (filled 512 0 ∷ []) ∷ []

-- A device of 1 MB in reserved memory at 2 ^ 32, on which one sector is written and read.
abbrev grants : ℕ → Answers
grants i = record { kzalloc = true; vmalloc = true; alloc_queue = true; alloc_disk = true }
