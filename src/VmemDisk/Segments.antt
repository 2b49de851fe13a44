-- ===== src/VmemDisk/Segments.antt =====
-- A bio of several segments of one length, in code/vmem_disk/vmem_disk.c.
use linux_drivers_study.Prelude.{
  ℕ, ◌+◌, ◌*◌, ◌≤◌, ◌≡◌, true, false, some, arith, length, List, [], ◌∷◌, inl, inr, ◌⊎◌, ◌∙◌, ap₂,
  refl,
}
use linux_drivers_study.Prelude.Bytes.{
  Bytes, slice, splice, length-splice, slice-splice_self, slice-splice_other,
}
use linux_drivers_study.VmemDisk.{Disk, xfer_segments, xfer_bio}
use linux_drivers_study.VmemDisk.Transfer.{IsValid, transfer_lem}

-- Every buffer is `n` bytes long.
abbrev pub Even : ℕ → List Bytes → Type 0
Even n [] = Unit
Even n (b ∷ bs) = (length b ≡ n) × Even n bs

-- The array after buffers of `n` bytes are written one behind the other from offset `o` on.
abbrev pub puts : ℕ → Bytes → ℕ → List Bytes → Bytes
puts n m o [] = m
puts n m o (b ∷ bs) = puts n (splice m o b) (o + n) bs

-- As many buffers of `n` bytes as `bs` has, read one behind the other.
abbrev pub gets : ℕ → Bytes → ℕ → List Bytes → List Bytes
gets n m o [] = []
gets n m o (b ∷ bs) = slice m o n ∷ gets n m (o + n) bs

pub length-puts : (n : ℕ) (m : Bytes) (o : ℕ) (bs : List Bytes) → length (puts n m o bs) ≡ length m
length-puts n m o [] = refl
length-puts n m o (b ∷ bs) = length-puts n (splice m o b) (o + n) bs ∙ length-splice m o b

slice-puts_below :
    (n : ℕ) (m : Bytes) (o : ℕ) (bs : List Bytes) (q k : ℕ)
    → q + k ≤ o
    → slice (puts n m o bs) q k ≡ slice m q k
slice-puts_below n m o [] q k h = refl
slice-puts_below n m o (b ∷ bs) q k h =
    slice-puts_below n (splice m o b) (o + n) bs q k (omega arith)
    ∙ slice-splice_other m o q k b (inl h)

gets-puts :
    (n : ℕ) (m : Bytes) (o : ℕ) (bs cs : List Bytes)
    → Even n bs
    → length cs ≡ length bs
    → o + length bs * n ≤ length m
    → gets n (puts n m o bs) o cs ≡ bs
gets-puts n m o [] [] even same room = refl
gets-puts n m o [] (c ∷ cs) even same room = absurd (omega arith)
gets-puts n m o (b ∷ bs) [] even same room = absurd (omega arith)
gets-puts n m o (b ∷ bs) (c ∷ cs) even same room =
    let read_back : slice (splice m o b) o n ≡ b =
      rw even.0 at (slice-splice_self m o b (omega arith)) in
    ap₂ ◌∷◌ (slice-puts_below n (splice m o b) (o + n) bs o n (omega arith) ∙ read_back) (
      gets-puts n (splice m o b) (o + n) bs cs even.1 (omega arith)
        (omega (arith, length-splice m o b)))

module _ (k : ℕ) where
  pub write_segments_lem :
      (d : Disk) (sector : ℕ) (bs : List Bytes)
      → IsValid d
      → Even (k * 512) bs
      → (sector + length bs * k) * 512 ≤ d.size
      → xfer_segments (k * 512) true d sector bs
        ≡ some (record {
          disk = record d { bytes = puts (k * 512) d.bytes (sector * 512) bs };
          buffers = bs;
        })
  unfolding xfer_segments
  write_segments_lem d sector [] v even room = refl
  write_segments_lem d sector (b ∷ bs) v even room =
      let d' : Disk = record d { bytes = splice d.bytes (sector * 512) b } in
      let v' : IsValid d' = omega (arith, length-splice d.bytes (sector * 512) b) in
      ground (
        arith,
        transfer_lem d sector k b,
        write_segments_lem d' (sector + k) bs v' even.1 (omega arith),
      )

  pub read_segments_lem :
      (d : Disk) (sector : ℕ) (bs : List Bytes)
      → IsValid d
      → Even (k * 512) bs
      → (sector + length bs * k) * 512 ≤ d.size
      → xfer_segments (k * 512) false d sector bs
        ≡ some (record { disk = d; buffers = gets (k * 512) d.bytes (sector * 512) bs })
  unfolding xfer_segments
  read_segments_lem d sector [] v even room = refl
  read_segments_lem d sector (b ∷ bs) v even room =
      ground (
        arith,
        transfer_lem d sector k b,
        read_segments_lem d (sector + k) bs v even.1 (omega arith),
      )

-- Bytes behind the last buffer are not touched either.
slice-puts_above :
    (n : ℕ) (m : Bytes) (o : ℕ) (bs : List Bytes) (q j : ℕ)
    → Even n bs
    → o + length bs * n ≤ q
    → slice (puts n m o bs) q j ≡ slice m q j
slice-puts_above n m o [] q j even h = refl
slice-puts_above n m o (b ∷ bs) q j even h =
    slice-puts_above n (splice m o b) (o + n) bs q j even.1 (omega arith)
    ∙ slice-splice_other m o q j b (inr (omega arith))

-- A bio of segments of one length, inside the disk: written and then read into other buffers of that
-- shape it gives the same buffers back, and bytes outside its sectors stay as they were.
pub xfer_bio_round_trip :
    (d : Disk) (sector k : ℕ) (bs cs : List Bytes) (q n : ℕ)
    → IsValid d
    → Even (k * 512) bs
    → Even (k * 512) cs
    → length cs ≡ length bs
    → (sector + length bs * k) * 512 ≤ d.size
    → (q + n ≤ sector * 512) ⊎ ((sector + length bs * k) * 512 ≤ q)
    → (d' : Disk) × (xfer_bio d
          (record { sector = sector; cur_bytes = k * 512; write = true; buffers = bs })
        ≡ some (record { disk = d'; buffers = bs }))
      × (xfer_bio d' (record { sector = sector; cur_bytes = k * 512; write = false; buffers = cs })
          ≡ some (record { disk = d'; buffers = bs }))
      × (slice d'.bytes q n ≡ slice d.bytes q n)
unfolding xfer_bio
xfer_bio_round_trip d sector k bs cs q n v even even' same room outside =
    let d' : Disk = record d { bytes = puts (k * 512) d.bytes (sector * 512) bs } in
    let v' : IsValid d' = omega (arith, length-puts (k * 512) d.bytes (sector * 512) bs) in
    let back = gets-puts (k * 512) d.bytes (sector * 512) bs cs even same (omega arith) in
    (
      d',
      write_segments_lem k d sector bs v even room,
      rw back at (read_segments_lem k d' sector cs v' even' (rw same room)),
      elim outside [
        | inl below ↦ slice-puts_below (k * 512) d.bytes (sector * 512) bs q n below
        | inr above ↦ slice-puts_above (k * 512) d.bytes (sector * 512) bs q n even (omega arith)
      ],
    )
