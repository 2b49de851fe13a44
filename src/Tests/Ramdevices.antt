-- ===== src/Tests/Ramdevices.antt =====
-- Runs of the ram device of code/NVMSIM on small inputs.
use linux_drivers_study.Prelude.{
  ℕ, ◌≡◌, ◌+◌, ◌≤◌, inl, true, false, List, [], ◌∷◌, some, refl, length, replicate,
  length-replicate, arith, map,
}
use linux_drivers_study.Prelude.Bytes.{Bytes, slice}
use linux_drivers_study.Nvm.Highmem.{Highmem, IsValid, malloc, free, run, Ordered, run-Ordered}
use linux_drivers_study.Nvm.Request.{Device, BioVec, make_request}
use linux_drivers_study.Nvm.Request.Segments
use linux_drivers_study.Nvm.Request.Segments.{puts, gets, payload}
use linux_drivers_study.Nvm.Request.Whole.{request, make_request_round_trip}
use linux_drivers_study.Nvm.Module.{Answers}

-- Reserved memory of 100 bytes at 4096, of which 40 are given out.
abbrev reserved : Highmem
reserved = record { virt_addr = 4096; size = 100; curr_addr = 4136 }

reserved-IsValid : IsValid reserved
reserved-IsValid = record { above = omega arith; below = omega arith; no_wrap = omega arith }

run-Ordered_example :
    Ordered 4136 4196 (run reserved (malloc 20 ∷ free 4136 ∷ malloc 50 ∷ malloc 40 ∷ []))
run-Ordered_example =
    run-Ordered reserved (malloc 20 ∷ free 4136 ∷ malloc 50 ∷ malloc 40 ∷ []) reserved-IsValid

abbrev twelve : Bytes
twelve = 1 ∷ 2 ∷ 3 ∷ 4 ∷ 5 ∷ 6 ∷ 7 ∷ 8 ∷ 9 ∷ 10 ∷ 11 ∷ 12 ∷ []

-- A device of four sectors, and segments of one sector in the middle of a page.
abbrev device : Device
device = record { nvmdev_capacity = 4; nvmdev_data = replicate 2048 0 }

device-IsValid : Segments.IsValid device
device-IsValid = record { whole = length-replicate 2048 0; small = omega arith }

abbrev segment : ℕ → BioVec
segment b = record { bv_page = replicate 1024 b; bv_len = 512; bv_offset = 256 }

segment-fits : (b : ℕ) → 256 + 512 ≤ length (segment b).bv_page
segment-fits b = omega (arith, length-replicate 1024 b)

make_request_round_trip_example :
    let vs = segment 1 ∷ segment 2 ∷ [] in
    let ws = segment 5 ∷ segment 6 ∷ [] in
    (d' : Device) × (back : List BioVec) × (make_request device (request 1 vs true)
      ≡ some (record { device = d'; segments = vs }))
    × (make_request d' (request 1 ws false) ≡ some (record { device = d'; segments = back }))
    × (map payload back ≡ map payload vs)
    × (slice d'.nvmdev_data 0 512 ≡ slice device.nvmdev_data 0 512)
make_request_round_trip_example =
    make_request_round_trip device 1 (segment 1 ∷ segment 2 ∷ []) (segment 5 ∷ segment 6 ∷ []) 0 512
      device-IsValid (segment-fits 1, refl, (segment-fits 2, refl, tt))
      (segment-fits 5, refl, (segment-fits 6, refl, tt)) (refl, (refl, tt)) (omega arith)
      (inl (omega arith))

-- A kernel that grants everything.
abbrev generous : ℕ → Answers
generous i = record { kzalloc = true; vmalloc = true; alloc_queue = true; alloc_disk = true }
