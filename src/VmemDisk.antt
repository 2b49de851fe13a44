-- ===== src/VmemDisk.antt =====
-- code/vmem_disk/vmem_disk.c: a disk in memory. Its data path: the transfer of sectors, a bio of several
-- segments, the request queue and the geometry.
pub mod Transfer
pub mod Segments
pub mod Module
pub mod Geo
pub mod Store
pub mod Queue
use linux_drivers_study.Prelude.{
  ℕ, ◌+◌, ◌*◌, ◌/◌, ◌%◌, ◌^◌, ltb, if◌then◌else◌, Bool, true, false, List, [], ◌∷◌, Option, none,
  some,
}
use linux_drivers_study.Prelude.Bytes.{Bytes, load, store}
use linux_drivers_study.Prelude.Int.{ℤ, pos}
use linux_drivers_study.Kernel.Errno.{eio}

-- KERNEL_SECTOR_SIZE, HARDSECT_SIZE and NSECTORS.
abbrev pub kernel_sector_size : ℕ
kernel_sector_size = 512

abbrev pub hardsect_size : ℕ
hardsect_size = 512

abbrev pub nsectors : ℕ
nsectors = 1024

-- `size` is in bytes, whatever its comment in the source says.
pub record Disk : Type 0 where
  pub size : ℕ
  pub bytes : Bytes

-- The fields that setup_device gives a disk whose data it has allocated.
pub made_disk : Bytes → Disk
made_disk stored = record { size = nsectors * hardsect_size; bytes = stored }

-- The disk and the buffer after a transfer.
pub record Moved : Type 0 where
  pub disk : Disk
  pub buffer : Bytes

-- `none` is a memcpy outside the data array or the buffer.
unfoldable pub transfer : Disk → ℕ → ℕ → Bytes → Bool → Option Moved
transfer d sector nsect buffer write =
    let offset = sector * kernel_sector_size % 2 ^ 64 in
    let nbytes = nsect * kernel_sector_size % 2 ^ 64 in
    let into_disk : Option Moved = elim (load buffer 0 nbytes) [
      | none ↦ none
      | some bs ↦ elim (store d.bytes offset bs) [
        | none ↦ none
        | some bytes ↦ some (record { disk = record d { bytes = bytes }; buffer = buffer })
      ]
    ] in
    let from_disk : Option Moved = elim (load d.bytes offset nbytes) [
      | none ↦ none
      | some bs ↦ elim (store buffer 0 bs) [
        | none ↦ none
        | some buffer' ↦ some (record { disk = d; buffer = buffer' })
      ]
    ] in
    if ltb d.size ((offset + nbytes) % 2 ^ 64)
    then some (record { disk = d; buffer = buffer })
    else if write
    then into_disk
    else from_disk

-- `cur_bytes` is what bio_cur_bytes(bio) answers, the same on every round since the loop advances an
-- iterator of its own. A buffer is the memory from the start of a segment on.
pub record Bio : Type 0 where
  pub sector : ℕ
  pub cur_bytes : ℕ
  pub write : Bool
  pub buffers : List Bytes

pub record Done : Type 0 where
  pub disk : Disk
  pub buffers : List Bytes

-- bio_for_each_segment
unfoldable pub xfer_segments : ℕ → Bool → Disk → ℕ → List Bytes → Option Done
xfer_segments cur_bytes write d sector [] = some (record { disk = d; buffers = [] })
xfer_segments cur_bytes write d sector (b ∷ bs) =
    elim (transfer d sector (cur_bytes / 2 ^ 9) b write) [
      | none ↦ none
      | some m ↦
          elim (xfer_segments cur_bytes write m.disk ((sector + cur_bytes / 2 ^ 9) % 2 ^ 64) bs) [
            | none ↦ none
            | some rest ↦ some (record { disk = rest.disk; buffers = m.buffer ∷ rest.buffers })
          ]
    ]

unfoldable pub xfer_bio : Disk → Bio → Option Done
xfer_bio d bio = xfer_segments bio.cur_bytes bio.write d bio.sector bio.buffers

-- `fs`: a file system request (REQ_TYPE_FS).
pub record Request : Type 0 where
  pub fs : Bool
  pub bios : List Bio

-- The disk, how each request was ended, and the buffers of its bios.
pub record Served : Type 0 where
  pub disk : Disk
  pub status : List ℤ
  pub buffers : List (List (List Bytes))

pub record Bios : Type 0 where
  pub disk : Disk
  pub buffers : List (List Bytes)

-- __rq_for_each_bio
unfoldable pub xfer_bios : Disk → List Bio → Option Bios
xfer_bios d [] = some (record { disk = d; buffers = [] })
xfer_bios d (bio ∷ bios) = elim (xfer_bio d bio) [
  | none ↦ none
  | some m ↦ elim (xfer_bios m.disk bios) [
    | none ↦ none
    | some rest ↦ some (record { disk = rest.disk; buffers = m.buffers ∷ rest.buffers })
  ]
]

abbrev pub buffers_of : List Bio → List (List Bytes)
buffers_of [] = []
buffers_of (bio ∷ bios) = bio.buffers ∷ buffers_of bios

-- A request that is no file system request is ended with -EIO and not looked at.
unfoldable pub serve : Disk → Request → Option Bios
serve d r =
    if r.fs then xfer_bios d r.bios else some (record { disk = d; buffers = buffers_of r.bios })

-- The requests that blk_peek_request gives until the queue is empty, and how each is ended.
unfoldable pub request : Disk → List Request → Option Served
unfolding serve
request d [] = some (record { disk = d; status = []; buffers = [] })
request d (r ∷ rs) =
    let answer : ℤ = if r.fs then pos 0 else eio in
    elim (serve d r) [
      | none ↦ none
      | some m ↦ elim (request m.disk rs) [
        | none ↦ none
        | some s ↦
            some (record {
              disk = s.disk;
              status = answer ∷ s.status;
              buffers = m.buffers ∷ s.buffers;
            })
      ]
    ]

-- The queue-less version: the bio is transferred and ended with the status of vmem_disk_xfer_bio.
pub record Ended : Type 0 where
  pub done : Done
  pub status : ℤ

pub make_request : Disk → Bio → Option Ended
make_request d bio = elim (xfer_bio d bio) [
  | none ↦ none
  | some done ↦ some (record { done = done; status = pos 0 })
]

-- struct hd_geometry, whose `cylinders` is an unsigned short.
pub record Geometry : Type 0 where
  pub cylinders : ℕ
  pub heads : ℕ
  pub sectors : ℕ
  pub start : ℕ

-- (size & ~0x3f) >> 6, 4 heads, 16 sectors, start 4.
unfoldable pub geometry : ℕ → Geometry
geometry size = record {
  cylinders = size / 64 * 64 / 2 ^ 6 % 2 ^ 16;
  heads = 4;
  sectors = 16;
  start = 4;
}

pub getgeo : Disk → Geometry
unfolding geometry
getgeo d = geometry (d.size * (hardsect_size / kernel_sector_size))
