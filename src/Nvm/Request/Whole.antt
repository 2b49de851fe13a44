-- ===== src/Nvm/Request/Whole.antt =====
-- `nvm_make_request` of code/NVMSIM/ramdevice.c as a whole.
use linux_drivers_study.Prelude.{
  ℕ, ◌+◌, ◌*◌, ◌/◌, ◌%◌, ◌^◌, ◌≤◌, ◌<◌, ◌≡◌, Bool, true, false, some, arith, length, List, [], ◌∷◌,
  ◌⊎◌, ◌∙◌, refl, map, ltb, if◌then◌else◌,
}
use linux_drivers_study.Prelude.Bytes.{slice}
use linux_drivers_study.Nvm.Request.{Device, BioVec, Finished, do_segments, Bio, make_request}
use linux_drivers_study.Nvm.Request.Segments.{
  IsValid, AllFit, total, payload, puts, gets, SameLens, length-puts, slice-puts_other,
  payloads-gets-puts, write_segments_lem, read_segments_lem,
}

abbrev pub request : ℕ → List BioVec → Bool → Bio
request sector vs write = record {
  bi_sector = sector;
  bi_size = total vs;
  write = write;
  segments = vs;
}

total-sectors : (us : List BioVec) → AllFit us → total us % 512 ≡ 0
total-sectors [] f = refl
total-sectors (u ∷ us) f = omega (arith, total-sectors us f.2)

total-same : (vs ws : List BioVec) → SameLens vs ws → total ws ≡ total vs
total-same [] [] same = refl
total-same [] (w ∷ ws) same = absurd same
total-same (v ∷ vs) [] same = absurd same
total-same (v ∷ vs) (w ∷ ws) same = omega (arith, total-same vs ws same.1)

module _ (d : Device) (sector : ℕ) (vs : List BioVec) (valid : IsValid d) (fit : AllFit vs) where
  -- The guard lets through exactly what lies in the device.
  accepted :
      (write : Bool)
      → sector * 512 + total vs ≤ length d.nvmdev_data
      → make_request d (request sector vs write) ≡ do_segments write d sector vs
  unfolding make_request
  accepted write room = ground arith

  -- A request whose segments are whole sectors and whose end is below sector 2 ^ 64: inside the device a
  -- write puts the payloads one behind the other into the data and a read fills the segments from
  -- there; past its end nothing changes, and the request is ended in the same way.
  pub make_request_lem :
      sector + total vs / 512 < 2 ^ 64
      → let past = ltb (d.nvmdev_capacity * 512) (sector * 512 + total vs) in
        let same : Finished = record { device = d; segments = vs } in
        (make_request d (request sector vs true)
          ≡ some (
              if past then same else record {
                device = record d { nvmdev_data = puts d.nvmdev_data (sector * 512) vs };
                segments = vs;
              }))
        × (make_request d (request sector vs false)
            ≡ some (
                if past
                then same
                else record { device = d; segments = gets d.nvmdev_data (sector * 512) vs }))
  unfolding make_request
  make_request_lem no_wrap = (
    ground (arith, write_segments_lem d sector vs valid fit, total-sectors vs fit),
    ground (arith, read_segments_lem d sector vs valid fit, total-sectors vs fit),
  )

-- A request inside the device, written and then read into segments of the same lengths: they then hold
-- the payloads that were written, and bytes outside their range stay as they were.
pub make_request_round_trip :
    (d : Device) (sector : ℕ) (vs ws : List BioVec) (q n : ℕ)
    → IsValid d
    → AllFit vs
    → AllFit ws
    → SameLens vs ws
    → sector * 512 + total vs ≤ d.nvmdev_capacity * 512
    → (q + n ≤ sector * 512) ⊎ (sector * 512 + total vs ≤ q)
    → (d' : Device) × (back : List BioVec) × (make_request d (request sector vs true)
        ≡ some (record { device = d'; segments = vs }))
      × (make_request d' (request sector ws false) ≡ some (record { device = d'; segments = back }))
      × (map payload back ≡ map payload vs)
      × (slice d'.nvmdev_data q n ≡ slice d.nvmdev_data q n)
make_request_round_trip d sector vs ws q n valid fit fit' same room outside =
    let d' : Device = record d { nvmdev_data = puts d.nvmdev_data (sector * 512) vs } in
    let kept = length-puts d.nvmdev_data (sector * 512) vs in
    let valid' : IsValid d' = omega (arith, kept) in
    let read_room : sector * 512 + total ws ≤ length d'.nvmdev_data =
      omega (arith, kept, total-same vs ws same) in
    (
      d',
      gets d'.nvmdev_data (sector * 512) ws,
      accepted d sector vs valid fit true (omega arith)
          ∙ write_segments_lem d sector vs valid fit (omega arith),
      accepted d' sector ws valid' fit' false read_room
          ∙ read_segments_lem d' sector ws valid' fit' read_room,
      payloads-gets-puts d.nvmdev_data (sector * 512) vs ws fit fit' same (omega arith),
      slice-puts_other d.nvmdev_data (sector * 512) vs q n fit outside,
    )
