-- ===== src/Nvm/Request/Segments.antt =====
-- The segments of a request inside the device, in code/NVMSIM/ramdevice.c.
use linux_drivers_study.Prelude.{
  ℕ, ◌+◌, ◌*◌, ◌/◌, ◌%◌, ◌^◌, ◌≤◌, ◌<◌, ◌≡◌, true, false, some, arith, length, List, [], ◌∷◌, inl,
  inr, ◌⊎◌, ◌∙◌, ap, ap₂, refl, map,
}
use linux_drivers_study.Prelude.Bytes.{
  Bytes, slice, splice, length-splice, slice-splice_self, slice-splice_other, length-slice,
}
use linux_drivers_study.Nvm.Copy.{memory_copy_lem, copied_bytes}
use linux_drivers_study.Nvm.Request.{Device, BioVec, do_bvec, do_segments}

-- The data array holds `nvmdev_capacity` sectors.
pub record IsValid (d : Device) : Type 0 where
  pub whole : length d.nvmdev_data ≡ d.nvmdev_capacity * 512
  pub small : d.nvmdev_capacity < 2 ^ 32

-- The part of the page lies in it and is a number of sectors long.
abbrev pub AllFit : List BioVec → Type 0
AllFit [] = Unit
AllFit (v ∷ vs) = (v.bv_offset + v.bv_len ≤ length v.bv_page) × (v.bv_len % 512 ≡ 0) × AllFit vs

abbrev pub total : List BioVec → ℕ
total [] = 0
total (v ∷ vs) = v.bv_len + total vs

abbrev pub payload : BioVec → Bytes
payload v = slice v.bv_page v.bv_offset v.bv_len

-- The array after the payloads are written one behind the other from offset `o` on.
abbrev pub puts : Bytes → ℕ → List BioVec → Bytes
puts m o [] = m
puts m o (v ∷ vs) = puts (splice m o (payload v)) (o + v.bv_len) vs

-- The segments after their parts are filled from the array, from offset `o` on.
abbrev pub gets : Bytes → ℕ → List BioVec → List BioVec
gets m o [] = []
gets m o (v ∷ vs) =
    record v { bv_page = splice v.bv_page v.bv_offset (slice m o v.bv_len) }
    ∷ gets m (o + v.bv_len) vs

-- Segments of the same lengths, of other pages perhaps.
abbrev pub SameLens : List BioVec → List BioVec → Type 0
SameLens [] [] = Unit
SameLens (v ∷ vs) (w ∷ ws) = (v.bv_len ≡ w.bv_len) × SameLens vs ws
SameLens _ _ = ⊥

pub length-puts : (m : Bytes) (o : ℕ) (vs : List BioVec) → length (puts m o vs) ≡ length m
length-puts m o [] = refl
length-puts m o (v ∷ vs) =
    length-puts (splice m o (payload v)) (o + v.bv_len) vs ∙ length-splice m o (payload v)

length-payload :
    (v : BioVec) → v.bv_offset + v.bv_len ≤ length v.bv_page → length (payload v) ≡ v.bv_len
length-payload v h = length-slice v.bv_page v.bv_offset v.bv_len h

-- Bytes outside the range of the payloads are not touched.
pub slice-puts_other :
    (m : Bytes) (o : ℕ) (vs : List BioVec) (q k : ℕ)
    → AllFit vs
    → (q + k ≤ o) ⊎ (o + total vs ≤ q)
    → slice (puts m o vs) q k ≡ slice m q k
slice-puts_other m o [] q k fit h = refl
slice-puts_other m o (v ∷ vs) q k fit (inl h) =
    slice-puts_other (splice m o (payload v)) (o + v.bv_len) vs q k fit.2 (inl (omega arith))
    ∙ slice-splice_other m o q k (payload v) (inl h)
slice-puts_other m o (v ∷ vs) q k fit (inr h) =
    slice-puts_other (splice m o (payload v)) (o + v.bv_len) vs q k fit.2 (inr (omega arith))
    ∙ slice-splice_other m o q k (payload v) (inr (omega (arith, length-payload v fit.0)))

pub payload-filled :
    (w : BioVec) (bs : Bytes)
    → w.bv_offset + w.bv_len ≤ length w.bv_page
    → length bs ≡ w.bv_len
    → payload (record w { bv_page = splice w.bv_page w.bv_offset bs }) ≡ bs
payload-filled w bs fits e = rw e at (slice-splice_self w.bv_page w.bv_offset bs (omega arith))

-- The first part of an array into which payloads are put.
head-puts :
    (m : Bytes) (o n : ℕ) (v : BioVec) (vs : List BioVec)
    → AllFit (v ∷ vs)
    → v.bv_len ≡ n
    → o + n ≤ length m
    → slice (puts m o (v ∷ vs)) o n ≡ payload v
head-puts m o n v vs fit e room =
    let len = length-payload v fit.0 ∙ e in
    slice-puts_other (splice m o (payload v)) (o + v.bv_len) vs o n fit.2 (inl (omega arith))
    ∙ rw len at (slice-splice_self m o (payload v) (omega (arith, len)))

pub payloads-gets-puts :
    (m : Bytes) (o : ℕ) (vs ws : List BioVec)
    → AllFit vs
    → AllFit ws
    → SameLens vs ws
    → o + total vs ≤ length m
    → map payload (gets (puts m o vs) o ws) ≡ map payload vs
payloads-gets-puts m o [] [] fit fit' same room = refl
payloads-gets-puts m o [] (w ∷ ws) fit fit' same room = absurd same
payloads-gets-puts m o (v ∷ vs) [] fit fit' same room = absurd same
payloads-gets-puts m o (v ∷ vs) (w ∷ ws) fit fit' same room =
    let head = head-puts m o w.bv_len v vs fit same.0 (omega arith) in
    let len : length (payload v) ≡ w.bv_len = length-payload v fit.0 ∙ same.0 in
    let next : o + w.bv_len ≡ o + v.bv_len = omega arith in
    ap₂ ◌∷◌
      (payload-filled w (slice (puts m o (v ∷ vs)) o w.bv_len) fit'.0 (ap length head ∙ len) ∙ head)
      (rw next (
        payloads-gets-puts (splice m o (payload v)) (o + v.bv_len) vs ws fit.2 fit'.2 same.1
          (omega (arith, length-splice m o (payload v)))))

pub write_segments_lem :
    (d : Device) (sector : ℕ) (vs : List BioVec)
    → IsValid d
    → AllFit vs
    → sector * 512 + total vs ≤ length d.nvmdev_data
    → do_segments true d sector vs
      ≡ some (record {
        device = record d { nvmdev_data = puts d.nvmdev_data (sector * 512) vs };
        segments = vs;
      })
unfolding do_segments do_bvec copied_bytes
write_segments_lem d sector [] valid fit room = refl
write_segments_lem d sector (v ∷ vs) valid fit room =
    let d' : Device = record d { nvmdev_data = splice d.nvmdev_data (sector * 512) (payload v) } in
    let same_length = length-splice d.nvmdev_data (sector * 512) (payload v) in
    ground (
      arith,
      memory_copy_lem true d.nvmdev_data (sector * 512) v.bv_page v.bv_offset v.bv_len,
      write_segments_lem d' (sector + v.bv_len / 512) vs (omega (arith, same_length)) fit.2
          (omega (arith, same_length)),
    )

pub read_segments_lem :
    (d : Device) (sector : ℕ) (vs : List BioVec)
    → IsValid d
    → AllFit vs
    → sector * 512 + total vs ≤ length d.nvmdev_data
    → do_segments false d sector vs
      ≡ some (record { device = d; segments = gets d.nvmdev_data (sector * 512) vs })
unfolding do_segments do_bvec copied_bytes
read_segments_lem d sector [] valid fit room = refl
read_segments_lem d sector (v ∷ vs) valid fit room = ground (
  arith,
  memory_copy_lem true v.bv_page v.bv_offset d.nvmdev_data (sector * 512) v.bv_len,
  read_segments_lem d (sector + v.bv_len / 512) vs valid fit.2 (omega arith),
)
