-- ===== src/VmemDisk/Queue.antt =====
-- The request queue of code/vmem_disk/vmem_disk.c, `vmem_disk_request`, against an array of bytes.
use linux_drivers_study.Prelude.{
  ℕ, ◌+◌, ◌*◌, ◌≤◌, ◌≡◌, List, [], ◌∷◌, length, some, arith, refl, ap, ◌∙◌, Bool, true, false,
  if◌then◌else◌,
}
use linux_drivers_study.Prelude.Bytes.{Bytes}
use linux_drivers_study.Prelude.Int.{ℤ, pos}
use linux_drivers_study.Kernel.Errno.{eio}
use linux_drivers_study.Block.{total, put, pick, length-put}
use linux_drivers_study.VmemDisk.{
  Disk, Bio, xfer_segments, xfer_bio, xfer_bios, Request, serve, request, buffers_of,
}
use linux_drivers_study.VmemDisk.Transfer.{IsValid}
use linux_drivers_study.VmemDisk.Segments.{Even, write_segments_lem, read_segments_lem}
use linux_drivers_study.VmemDisk.Store.{total-Even, puts-put, gets-pick}

-- Bios of segments of one length, any number of sectors, inside a disk of `n` bytes.
abbrev pub BioFits : ℕ → Bio → Type 0
BioFits n bio =
    (k : ℕ) × (bio.cur_bytes ≡ k * 512)
    × Even (k * 512) bio.buffers
    × (bio.sector * 512 + total bio.buffers ≤ n)

abbrev pub BiosFit : ℕ → List Bio → Type 0
BiosFit n [] = Unit
BiosFit n (bio ∷ bios) = BioFits n bio × BiosFit n bios

-- Only what the file system asks for is carried out, so only that has to fit.
abbrev pub Fit : ℕ → List Request → Type 0
Fit n [] = Unit
Fit n (r ∷ rs) = (if r.fs then BiosFit n r.bios else Unit) × Fit n rs

-- The bytes after a bio, and its buffers.
abbrev pub bio_effect : Bool → ℕ → List Bytes → Bytes → Bytes
bio_effect true first bs m = put (first * 512) bs m
bio_effect false first bs m = m

abbrev pub bio_answer : Bool → ℕ → List Bytes → Bytes → List Bytes
bio_answer true first bs m = bs
bio_answer false first bs m = pick (first * 512) bs m

abbrev pub bios_effect : List Bio → Bytes → Bytes
bios_effect [] m = m
bios_effect (bio ∷ bios) m = bios_effect bios (bio_effect bio.write bio.sector bio.buffers m)

abbrev pub bios_answer : List Bio → Bytes → List (List Bytes)
bios_answer [] m = []
bios_answer (bio ∷ bios) m =
    bio_answer bio.write bio.sector bio.buffers m
    ∷ bios_answer bios (bio_effect bio.write bio.sector bio.buffers m)

abbrev pub queue_effect : List Request → Bytes → Bytes
queue_effect [] m = m
queue_effect (r ∷ rs) m = queue_effect rs (if r.fs then bios_effect r.bios m else m)

abbrev pub queue_answer : List Request → Bytes → List (List (List Bytes))
queue_answer [] m = []
queue_answer (r ∷ rs) m =
    (if r.fs then bios_answer r.bios m else buffers_of r.bios)
    ∷ queue_answer rs (if r.fs then bios_effect r.bios m else m)

-- 0 for a request of the file system and -EIO for any other.
abbrev pub statuses : List Request → List ℤ
statuses [] = []
statuses (r ∷ rs) = (if r.fs then pos 0 else eio) ∷ statuses rs

-- A disk that stores `m`, with the size kept.
pub record Reached (d d' : Disk) (m : Bytes) : Type 0 where
  pub valid : IsValid d'
  pub same_size : length d'.bytes ≡ length d.bytes
  pub stored : d'.bytes ≡ m

xfer_bio-Reached :
    (d : Disk) (write : Bool) (first k : ℕ) (bs : List Bytes)
    → IsValid d
    → Even (k * 512) bs
    → first * 512 + total bs ≤ length d.bytes
    → (d' : Disk) × (xfer_bio d
          (record { sector = first; cur_bytes = k * 512; write = write; buffers = bs })
        ≡ some (record { disk = d'; buffers = bio_answer write first bs d.bytes }))
      × Reached d d' (bio_effect write first bs d.bytes)
unfolding xfer_bio
xfer_bio-Reached d true first k bs v even room = (
  record d { bytes = put (first * 512) bs d.bytes },
  write_segments_lem k d first bs v even (omega (arith, total-Even k bs even, v.whole))
      ∙ ap (λ m. some (record { disk = record d { bytes = m }; buffers = bs }))
          (puts-put (k * 512) d.bytes (first * 512) bs even),
  record {
    valid = omega (arith, length-put (first * 512) bs d.bytes, v.whole, v.small);
    same_size = length-put (first * 512) bs d.bytes;
    stored = refl;
  },
)
xfer_bio-Reached d false first k bs v even room = (
  d,
  read_segments_lem k d first bs v even (omega (arith, total-Even k bs even, v.whole))
      ∙ ap (λ l. some (record { disk = d; buffers = l }))
          (gets-pick (k * 512) d.bytes (first * 512) bs even),
  record { valid = v; same_size = refl; stored = refl },
)

bio-Reached :
    (d : Disk) (bio : Bio)
    → IsValid d
    → BioFits (length d.bytes) bio
    → let m = d.bytes in
      (d' : Disk) × (xfer_bio d bio
        ≡ some (record { disk = d'; buffers = bio_answer bio.write bio.sector bio.buffers m }))
      × Reached d d' (bio_effect bio.write bio.sector bio.buffers m)
unfolding xfer_bio
bio-Reached d bio v fit =
    let (d', ends, reached) =
      xfer_bio-Reached d bio.write bio.sector fit.0 bio.buffers v fit.2 fit.3 in
    (d', ap (λ k. xfer_segments k bio.write d bio.sector bio.buffers) fit.1 ∙ ends, reached)

xfer_bios-Reached :
    (bios : List Bio) (d : Disk) (m : Bytes)
    → IsValid d
    → d.bytes ≡ m
    → BiosFit (length d.bytes) bios
    → (d' : Disk) × (xfer_bios d bios ≡ some (record { disk = d'; buffers = bios_answer bios m }))
      × Reached d d' (bios_effect bios m)
unfolding xfer_bios
xfer_bios-Reached [] d m v at fit = (d, refl, record { valid = v; same_size = refl; stored = at })
xfer_bios-Reached (bio ∷ bios) d m v at fit =
    let (d', ends, r) = bio-Reached d bio v fit.0 in
    let (d'', rest_ends, r') =
      xfer_bios-Reached bios d' (bio_effect bio.write bio.sector bio.buffers m) r.valid
        (r.stored ∙ ap (bio_effect bio.write bio.sector bio.buffers) at) (rw r.same_size fit.1) in
    (
      d'',
      rw (xfer_bios, ends, rest_ends, at) refl,
      record { valid = r'.valid; same_size = r'.same_size ∙ r.same_size; stored = r'.stored },
    )

serve-Reached :
    (fs : Bool) (bios : List Bio) (d : Disk) (m : Bytes)
    → IsValid d
    → d.bytes ≡ m
    → (if fs then BiosFit (length d.bytes) bios else Unit)
    → (d' : Disk) × (serve d (record { fs = fs; bios = bios })
        ≡ some (record { disk = d'; buffers = if fs then bios_answer bios m else buffers_of bios }))
      × Reached d d' (if fs then bios_effect bios m else m)
unfolding serve
serve-Reached true bios d m v at fit = xfer_bios-Reached bios d m v at fit
serve-Reached false bios d m v at fit =
    (d, refl, record { valid = v; same_size = refl; stored = at })

-- The queue is worked off to its end: the requests of the file system, whose bios lie inside the
-- disk and have segments of one length each, any number of sectors, are carried out in order as on an
-- array of bytes and end with 0; the others change
-- nothing and end with -EIO.
pub request_lem :
    (rs : List Request) (d : Disk) (m : Bytes)
    → IsValid d
    → d.bytes ≡ m
    → Fit (length d.bytes) rs
    → (d' : Disk) × (request d rs
        ≡ some (record { disk = d'; status = statuses rs; buffers = queue_answer rs m }))
      × Reached d d' (queue_effect rs m)
unfolding request
request_lem [] d m v at fit = (d, refl, record { valid = v; same_size = refl; stored = at })
request_lem (r ∷ rs) d m v at fit =
    let (d', ends, reached) = serve-Reached r.fs r.bios d m v at fit.0 in
    let (d'', rest_ends, reached') =
      request_lem rs d' (if r.fs then bios_effect r.bios m else m) reached.valid reached.stored
        (rw reached.same_size fit.1) in
    (
      d'',
      rw (request, ends, rest_ends) refl,
      record {
        valid = reached'.valid;
        same_size = reached'.same_size ∙ reached.same_size;
        stored = reached'.stored;
      },
    )
