-- ===== src/Tdlbd.antt =====
-- code/tdlbd/tdlbd.c: the disk of code/vmem_disk/vmem_disk.c ported to a later kernel. The data path and
-- the set-up are the same text; the names, the geometry and the end of a bio differ.
pub mod Laws
use linux_drivers_study.Prelude.{ℕ, ◌*◌, ◌/◌, Bool, true, false, List, Option, none, some}
use linux_drivers_study.Prelude.Bytes.{Bytes}
use linux_drivers_study.Prelude.Int.{ℤ}
use linux_drivers_study.VmemDisk
use linux_drivers_study.VmemDisk.{Disk, Moved, Bio, Done, Request, Served, Geometry, geometry}
use linux_drivers_study.VmemDisk.Module
use linux_drivers_study.VmemDisk.Module.{Answers, Slot, Setup, Event, Loaded}

-- BLOCK_SIZE, SECTOR_SIZE and KERNEL_SECTOR_SIZE.
abbrev pub block_size : ℕ
block_size = 512

abbrev pub sector_size : ℕ
sector_size = 1024

abbrev pub kernel_sector_size : ℕ
kernel_sector_size = 512

pub made_disk : Bytes → Disk
made_disk stored = record { size = sector_size * block_size; bytes = stored }

pub transfer : Disk → ℕ → ℕ → Bytes → Bool → Option Moved
transfer = VmemDisk.transfer

pub xfer_bio : Disk → Bio → Option Done
xfer_bio = VmemDisk.xfer_bio

-- A passthrough request is one that is no file system request.
pub request : Disk → List Request → Option Served
request = VmemDisk.request

-- bio_endio(bio) takes no status: the one that vmem_disk_xfer_bio returned is dropped.
pub make_request : Disk → Bio → Option Done
make_request = VmemDisk.xfer_bio

pub getgeo : Disk → Geometry
unfolding geometry
getgeo d = geometry (d.size * (sector_size / kernel_sector_size))

pub setup_device : ℕ → Answers → Setup
setup_device = Module.setup_device

abbrev pub tdlbd : ℕ
tdlbd = 2

-- DEVICES_NUM is 4. The name is unregistered as it was registered.
unfoldable pub init : ℤ → Bool → (ℕ → Answers) → Loaded
init = Module.init_with tdlbd tdlbd 4

pub exit : (ℕ → Slot) → List Event
exit = Module.exit_with tdlbd 4
