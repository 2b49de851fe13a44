-- ===== src/VmemDisk/Transfer.antt =====
-- Laws of `vmem_disk_transfer` of code/vmem_disk/vmem_disk.c.
use linux_drivers_study.Prelude.{
  ℕ, ◌+◌, ◌*◌, ◌^◌, ◌≤◌, ◌<◌, ◌≡◌, ltb, if◌then◌else◌, true, false, none, some, arith, length,
}
use linux_drivers_study.Prelude.Bytes.{
  Bytes, slice, splice, load_inside, store_inside, length-slice, store_outside, slice_all,
  splice_all,
}
use linux_drivers_study.VmemDisk.{Disk, Moved, made_disk, transfer}

-- The data array is as long as `size` says, and `size` fits an int.
pub record IsValid (d : Disk) : Type 0 where
  pub whole : length d.bytes ≡ d.size
  pub small : d.size < 2 ^ 31

made_disk-IsValid : (stored : Bytes) → length stored ≡ 1024 * 512 → IsValid (made_disk stored)
unfolding made_disk
made_disk-IsValid stored h = record { whole = h; small = omega arith }

-- A transfer whose last sector is below 2 ^ 55, with a buffer for it, never leaves the array or the
-- buffer. Past the end of the disk it changes nothing; otherwise a write replaces exactly the bytes of
-- its sectors and a read puts exactly those into the buffer.
pub transfer_lem :
    (d : Disk) (sector nsect : ℕ) (buffer : Bytes)
    → IsValid d
    → sector + nsect < 2 ^ 55
    → length buffer ≡ nsect * 512
    → let past = ltb d.size ((sector + nsect) * 512) in
      let same : Moved = record { disk = d; buffer = buffer } in
      (transfer d sector nsect buffer true
        ≡ some (
            if past then same else record {
              disk = record d { bytes = splice d.bytes (sector * 512) buffer };
              buffer = buffer;
            }))
      × (transfer d sector nsect buffer false
          ≡ some (
              if past
              then same
              else record { disk = d; buffer = slice d.bytes (sector * 512) (nsect * 512) }))
unfolding transfer
transfer_lem d sector nsect buffer v no_wrap room =
    let o = sector * 512 in
    let n = nsect * 512 in
    (
      ground (
        arith,
        load_inside buffer 0 n,
        store_inside d.bytes o (slice buffer 0 n),
        slice_all buffer n,
      ),
      ground (
        arith,
        load_inside d.bytes o n,
        length-slice d.bytes o n,
        store_inside buffer 0 (slice d.bytes o n),
        splice_all buffer (slice d.bytes o n),
      ),
    )

-- The guard adds byte offsets modulo 2 ^ 64. A write that starts past the disk and runs to sector
-- 2 ^ 55 or a little beyond passes it, and writes outside the data array.
pub transfer_wraps :
    (d : Disk) (sector nsect k : ℕ) (buffer : Bytes)
    → IsValid d
    → sector < 2 ^ 55
    → nsect < 2 ^ 55
    → d.size < sector * 512
    → sector + nsect ≡ 2 ^ 55 + k
    → k * 512 ≤ d.size
    → length buffer ≡ nsect * 512
    → transfer d sector nsect buffer true ≡ none
unfolding transfer
transfer_wraps d sector nsect k buffer v hs hn past sum small room = ground (
  arith,
  load_inside buffer 0 (nsect * 512),
  slice_all buffer (nsect * 512),
  store_outside d.bytes (sector * 512) (slice buffer 0 (nsect * 512)),
)
