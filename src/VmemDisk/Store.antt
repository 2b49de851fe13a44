-- ===== src/VmemDisk/Store.antt =====
-- The disk of code/vmem_disk/vmem_disk.c behind the interface of Block: bios of segments that are all of one length.
use linux_drivers_study.Prelude.{
  ℕ, ◌+◌, ◌*◌, ◌≤◌, ◌≡◌, List, [], ◌∷◌, Option, none, some, length, arith, refl, ap, ◌∙◌, Bool,
  true, false,
}
use linux_drivers_study.Prelude.Bytes.{Bytes, splice, slice}
use linux_drivers_study.Block.{
  total, put, pick, length-put, BlockDriver, IsLawful, Request, Fit, serve_all, answers,
}
use linux_drivers_study.Block.Refines.{serve_all-answers}
use linux_drivers_study.VmemDisk
use linux_drivers_study.VmemDisk.{Disk, Done, xfer_bio, xfer_segments}
use linux_drivers_study.VmemDisk.Transfer.{IsValid}
use linux_drivers_study.VmemDisk.Segments.{Even, puts, gets, write_segments_lem, read_segments_lem}

-- Segments of one length, any number of sectors.
abbrev pub Alike : List Bytes → Type 0
Alike bs = (k : ℕ) × Even (k * 512) bs

-- The length of the segments, which bio_cur_bytes tells.
abbrev pub segment_length : List Bytes → ℕ
segment_length [] = 0
segment_length (b ∷ bs) = length b

abbrev pub alike_bio : Bool → ℕ → List Bytes → VmemDisk.Bio
alike_bio write first bs = record {
  sector = first;
  cur_bytes = segment_length bs;
  write = write;
  buffers = bs;
}

pub total-Even : (k : ℕ) (bs : List Bytes) → Even (k * 512) bs → total bs ≡ length bs * k * 512
total-Even k [] even = omega arith
total-Even k (b ∷ bs) even = ground (arith, even.0, total-Even k bs even.1)

pub puts-put :
    (n : ℕ) (m : Bytes) (o : ℕ) (bs : List Bytes) → Even n bs → puts n m o bs ≡ put o bs m
puts-put n m o [] even = refl
puts-put n m o (b ∷ bs) even = rw even.0 (puts-put n (splice m o b) (o + n) bs even.1)

pub gets-pick :
    (n : ℕ) (m : Bytes) (o : ℕ) (bs : List Bytes) → Even n bs → gets n m o bs ≡ pick o bs m
gets-pick n m o [] even = refl
gets-pick n m o (b ∷ bs) even =
    rw even.0 (ap (λ l. slice m o n ∷ l) (gets-pick n m (o + n) bs even.1))

segments-length :
    (k : ℕ) (write : Bool) (d : Disk) (first : ℕ) (bs : List Bytes)
    → Even (k * 512) bs
    → xfer_segments (segment_length bs) write d first bs ≡ xfer_segments (k * 512) write d first bs
unfolding xfer_segments
segments-length k write d first [] even = refl
segments-length k write d first (b ∷ bs) even =
    ap (λ n. xfer_segments n write d first (b ∷ bs)) even.0

module _ (d : Disk) (first : ℕ) (bs : List Bytes) (v : IsValid d) (alike : Alike bs)
    (room : first * 512 + total bs ≤ length d.bytes) where
  fits : (first + length bs * alike.0) * 512 ≤ d.size
  fits = omega (arith, total-Even alike.0 bs alike.1, v.whole)

  pub write_alike :
      xfer_bio d (alike_bio true first bs)
      ≡ some (record { disk = record d { bytes = put (first * 512) bs d.bytes }; buffers = bs })
  unfolding xfer_bio
  write_alike =
      segments-length alike.0 true d first bs alike.1
      ∙ write_segments_lem alike.0 d first bs v alike.1 fits
      ∙ ap (λ m. some (record { disk = record d { bytes = m }; buffers = bs }))
          (puts-put (alike.0 * 512) d.bytes (first * 512) bs alike.1)

  pub read_alike :
      xfer_bio d (alike_bio false first bs)
      ≡ some (record { disk = d; buffers = pick (first * 512) bs d.bytes })
  unfolding xfer_bio
  read_alike =
      segments-length alike.0 false d first bs alike.1
      ∙ read_segments_lem alike.0 d first bs v alike.1 fits
      ∙ ap (λ l. some (record { disk = d; buffers = l }))
          (gets-pick (alike.0 * 512) d.bytes (first * 512) bs alike.1)

  pub put-IsValid : IsValid (record d { bytes = put (first * 512) bs d.bytes })
  put-IsValid = omega (arith, length-put (first * 512) bs d.bytes, v.whole, v.small)

abbrev split_done : Option Done → Option (Disk × List Bytes)
split_done none = none
split_done (some m) = some (m.disk, m.buffers)

abbrev pub vmem_disk_driver : BlockDriver
vmem_disk_driver = record {
  Device = Disk;
  write = λ d first bs. split_done (xfer_bio d (alike_bio true first bs));
  read = λ d first bs. split_done (xfer_bio d (alike_bio false first bs));
  stored = λ d. d.bytes;
  Takes = Alike;
  IsValid = IsValid;
}

pub vmem_disk_driver-IsLawful : IsLawful vmem_disk_driver
vmem_disk_driver-IsLawful = record {
  written = λ d first bs v alike room. (
    record d { bytes = put (first * 512) bs d.bytes },
    ap split_done (write_alike d first bs v alike room),
    put-IsValid d first bs v alike room,
    refl,
  );
  was_read = λ d first bs v alike room. ap split_done (read_alike d first bs v alike room);
}

-- Any requests inside the disk, one after the other, each of segments of one length, which may differ from
-- request to request and is any number of sectors: each is served without leaving the disk's array or
-- the buffers, and reads give back the bytes that were last written there.
pub vmem_disk_serves :
    (rs : List Request) (d : Disk)
    → IsValid d
    → Fit Alike (length d.bytes) rs
    → serve_all vmem_disk_driver rs d ≡ some (answers rs d.bytes)
vmem_disk_serves rs d v fit =
    serve_all-answers vmem_disk_driver rs d vmem_disk_driver-IsLawful v fit
