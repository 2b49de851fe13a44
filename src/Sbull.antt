-- ===== src/Sbull.antt =====
-- code/examples/sbull/sbull.c: the disk in memory that code/vmem_disk/vmem_disk.c was made from, with
-- a medium that changes, which a timer simulates after the disk was closed for a time.
pub mod Clusters
pub mod Idle
pub mod Module
use linux_drivers_study.Prelude.{
  ℕ, ◌+◌, ◌-◌, ◌*◌, ◌/◌, ◌==◌, leb, if◌then◌else◌, Bool, true, false, List, [], ◌∷◌, Option, none,
  some, replicate,
}
use linux_drivers_study.Prelude.Bytes.{Bytes}
use linux_drivers_study.Prelude.Int.{ℤ, pos}
use linux_drivers_study.Kernel.Errno.{efault, enotty}
use linux_drivers_study.VmemDisk
use linux_drivers_study.VmemDisk.{Disk, Moved, Done, Bio}

-- The disk with its users; `timer` is when the pending timer expires. `users` is not passed 2 ^ 15.
pub record Media : Type 0 where
  pub disk : Disk
  pub users : ℕ
  pub media_change : Bool
  pub timer : Option ℕ
  pub jiffies : ℕ

-- The transfer and the loop over the segments are those of vmem_disk.
unfoldable pub transfer : Disk → ℕ → ℕ → Bytes → Bool → Option Moved
transfer = VmemDisk.transfer

-- A call of elv_next_request: whether it is a file system request, and its current part.
pub record Chunk : Type 0 where
  pub fs : Bool
  pub sector : ℕ
  pub current_nr_sectors : ℕ
  pub buffer : Bytes
  pub write : Bool

-- The disk, whether each part was ended as done, and the buffers.
pub record Simple : Type 0 where
  pub disk : Disk
  pub uptodate : List Bool
  pub buffers : List Bytes

-- sbull_request
unfoldable pub request : Disk → List Chunk → Option Simple
request d [] = some (record { disk = d; uptodate = []; buffers = [] })
request d (c ∷ cs) =
    let skipped : Moved = record { disk = d; buffer = c.buffer } in
    let moved =
      if c.fs then transfer d c.sector c.current_nr_sectors c.buffer c.write else some skipped in
    elim moved [
      | none ↦ none
      | some m ↦ elim (request m.disk cs) [
        | none ↦ none
        | some s ↦
            some (record {
              disk = s.disk;
              uptodate = c.fs ∷ s.uptodate;
              buffers = m.buffer ∷ s.buffers;
            })
      ]
    ]

unfoldable pub xfer_bio : Disk → Bio → Option Done
xfer_bio = VmemDisk.xfer_bio

-- A bio with its length, bi_size.
pub record SizedBio : Type 0 where
  pub bio : Bio
  pub bi_size : ℕ

pub record Transferred : Type 0 where
  pub disk : Disk
  pub nsect : ℕ
  pub buffers : List (List Bytes)

-- sbull_xfer_request, from `nsect` sectors on; their number stays an `int`.
unfoldable pub xfer_request : Disk → ℕ → List SizedBio → Option Transferred
xfer_request d nsect [] = some (record { disk = d; nsect = nsect; buffers = [] })
xfer_request d nsect (b ∷ bs) = elim (xfer_bio d b.bio) [
  | none ↦ none
  | some m ↦ elim (xfer_request m.disk (nsect + b.bi_size / 512) bs) [
    | none ↦ none
    | some t ↦ some (record t { buffers = m.buffers ∷ t.buffers })
  ]
]

-- A round of sbull_full_request: what elv_next_request gives, and whether end_that_request_first, told
-- the sectors that were transferred, answers that the request has more.
pub record Round : Type 0 where
  pub fs : Bool
  pub bios : List SizedBio
  pub has_more : ℕ → Bool

-- How a round ends: end_request(req, 0), a request that is taken off the queue, or one that stays.
pub data Ending : Type 0 where
  refused : Ending
  dequeued still_queued : (nsect : ℕ) → Ending

pub record Full : Type 0 where
  pub disk : Disk
  pub endings : List Ending
  pub buffers : List (List (List Bytes))

abbrev pub buffers_of : List SizedBio → List (List Bytes)
buffers_of [] = []
buffers_of (b ∷ bs) = b.bio.buffers ∷ buffers_of bs

-- The body of the loop: the transfer, and the ending.
unfoldable pub full_round : Disk → Round → Option (Transferred × Ending)
full_round d r =
    let passed : Transferred = record { disk = d; nsect = 0; buffers = buffers_of r.bios } in
    if r.fs
    then elim (xfer_request d 0 r.bios) [
      | none ↦ none
      | some t ↦ some (t, if r.has_more t.nsect then still_queued t.nsect else dequeued t.nsect)
    ]
    else some (passed, refused)

-- sbull_full_request
unfoldable pub full_request : Disk → List Round → Option Full
full_request d [] = some (record { disk = d; endings = []; buffers = [] })
full_request d (r ∷ rs) = elim (full_round d r) [
  | none ↦ none
  | some (t, ending) ↦ elim (full_request t.disk rs) [
    | none ↦ none
    | some f ↦
        some
          (record { disk = f.disk; endings = ending ∷ f.endings; buffers = t.buffers ∷ f.buffers })
  ]
]

-- bio_endio is told the length of the bio and the status of sbull_xfer_bio, which is 0.
pub record Ended : Type 0 where
  pub done : Done
  pub bytes_done : ℕ
  pub status : ℤ

pub make_request : Disk → SizedBio → Option Ended
make_request d b = elim (xfer_bio d b.bio) [
  | none ↦ none
  | some done ↦ some (record { done = done; bytes_done = b.bi_size; status = pos 0 })
]

-- if (dev->media_change)
unfoldable pub revalidate : Media → Media
revalidate m =
    if m.media_change
    then record m {
      media_change = false;
      disk = record { size = m.disk.size; bytes = replicate m.disk.size 0 };
    }
    else m

-- check_disk_change calls `media_changed`, and `revalidate` if that says so.
unfoldable pub check_disk_change : Media → Media
check_disk_change m = if m.media_change then revalidate m else m

unfoldable pub open_device : Media → ℤ × Media
open_device m =
    let stopped = record m { timer = none } in
    let checked = if m.users == 0 then check_disk_change stopped else stopped in
    (pos 0, record checked { users = checked.users + 1 })

-- `hz` is HZ; INVALIDATE_DELAY is 30 * HZ.
unfoldable pub release : ℕ → Media → ℤ × Media
release hz m =
    let fewer = record m { users = m.users - 1 } in
    (pos 0, if fewer.users == 0 then record fewer { timer = some (m.jiffies + 30 * hz) } else fewer)

-- What the timer runs; the disk has its data.
unfoldable pub invalidate : Media → Media
invalidate m = if m.users == 0 then record m { media_change = true } else m

-- A tick of the clock, at which a timer that has expired runs.
unfoldable pub tick : Media → Media
tick m =
    let now = record m { jiffies = m.jiffies + 1 } in
    elim m.timer [
      | none ↦ now
      | some at ↦ if leb at (m.jiffies + 1) then invalidate (record now { timer = none }) else now
    ]

pub record Geometry : Type 0 where
  pub cylinders : ℕ
  pub heads : ℕ
  pub sectors : ℕ
  pub start : ℕ

-- HDIO_GETGEO, with what copy_to_user leaves; (size & ~0x3f) >> 6 is a division by 64.
unfoldable pub ioctl : (hdio_getgeo hardsect_size cmd left : ℕ) → Disk → ℤ × Option Geometry
ioctl hdio_getgeo hardsect_size cmd left d =
    let size = d.size * (hardsect_size / 512) in
    let geo : Geometry = record { cylinders = size / 64; heads = 4; sectors = 16; start = 4 } in
    if cmd == hdio_getgeo
    then (if left == 0 then (pos 0, some geo) else (efault, none))
    else (enotty, none)
