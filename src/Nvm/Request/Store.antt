-- ===== src/Nvm/Request/Store.antt =====
-- The ram device of code/NVMSIM/ramdevice.c behind the interface of Block: bios whose segments are parts of
-- pages, of any whole numbers of sectors, with other bytes of the page before and behind them.
use linux_drivers_study.Prelude.{
  ℕ, ◌+◌, ◌*◌, ◌%◌, ◌≤◌, ◌≡◌, List, [], ◌∷◌, Option, none, some, length, arith, refl, ap, ap₂, ◌∙◌,
  true, false, ◌++◌, map, length-append, take-append, take-length,
}
use linux_drivers_study.Prelude.Bytes.{Bytes, slice, splice, length-slice}
use linux_drivers_study.Block
use linux_drivers_study.Block.{put, pick, length-put, BlockDriver, IsLawful, Request}
use linux_drivers_study.VmemDisk.Transfer
use linux_drivers_study.Nvm.Request.{Device, BioVec, Finished, make_request}
use linux_drivers_study.Nvm.Request.Segments.{
  IsValid, AllFit, total, payload, puts, gets, payload-filled,
}
use linux_drivers_study.Nvm.Request.Whole.{request, make_request_lem}

-- Segments of whole sectors, of any lengths.
abbrev pub Whole : List Bytes → Type 0
Whole [] = Unit
Whole (b ∷ bs) = (length b % 512 ≡ 0) × Whole bs

middle : (xs b ys : Bytes) → slice (xs ++ (b ++ ys)) (length xs) (length b) ≡ b
middle [] b ys = take-append (length b) b ys (omega arith) ∙ take-length b
middle (x ∷ xs) b ys = middle xs b ys

module _ (before behind : Bytes) where
  -- A page with a buffer between other bytes.
  abbrev page : Bytes → BioVec
  page b = record {
    bv_page = before ++ (b ++ behind);
    bv_len = length b;
    bv_offset = length before;
  }

  abbrev pages : List Bytes → List BioVec
  pages [] = []
  pages (b ∷ bs) = page b ∷ pages bs

  abbrev split_finished : Option Finished → Option (Device × List Bytes)
  split_finished none = none
  split_finished (some m) = some (m.device, map payload m.segments)

  abbrev pub ram_device_driver : BlockDriver
  ram_device_driver = record {
    Device = Device;
    write = λ d first bs. split_finished (make_request d (request first (pages bs) true));
    read = λ d first bs. split_finished (make_request d (request first (pages bs) false));
    stored = λ d. d.nvmdev_data;
    Takes = Whole;
    IsValid = IsValid;
  }

  page-fits : (b : Bytes) → length before + length b ≤ length (before ++ (b ++ behind))
  page-fits b = omega (arith, length-append before (b ++ behind), length-append b behind)

  payload-page : (b : Bytes) → payload (page b) ≡ b
  payload-page b = middle before b behind

  pages-AllFit : (bs : List Bytes) → Whole bs → AllFit (pages bs)
  pages-AllFit [] w = tt
  pages-AllFit (b ∷ bs) w = (page-fits b, w.0, pages-AllFit bs w.1)

  total-pages : (bs : List Bytes) → total (pages bs) ≡ Block.total bs
  total-pages [] = refl
  total-pages (b ∷ bs) = omega (arith, total-pages bs)

  payloads-pages : (bs : List Bytes) → map payload (pages bs) ≡ bs
  payloads-pages [] = refl
  payloads-pages (b ∷ bs) = ap₂ ◌∷◌ (payload-page b) (payloads-pages bs)

  puts-pages : (bs : List Bytes) (m : Bytes) (o : ℕ) → puts m o (pages bs) ≡ put o bs m
  puts-pages [] m o = refl
  puts-pages (b ∷ bs) m o =
      ap (λ b'. puts (splice m o b') (o + length b) (pages bs)) (payload-page b)
      ∙ puts-pages bs (splice m o b) (o + length b)

  payloads-gets :
      (bs : List Bytes) (m : Bytes) (o : ℕ)
      → o + Block.total bs ≤ length m
      → map payload (gets m o (pages bs)) ≡ pick o bs m
  payloads-gets [] m o room = refl
  payloads-gets (b ∷ bs) m o room =
      ap₂ ◌∷◌
        (payload-filled (page b) (slice m o (length b)) (page-fits b)
          (length-slice m o (length b) (omega arith)))
        (payloads-gets bs m (o + length b) (omega arith))

  module _ (d : Device) (first : ℕ) (bs : List Bytes) (v : IsValid d) (w : Whole bs)
      (room : first * 512 + Block.total bs ≤ length d.nvmdev_data) where
    write_lem :
        make_request d (request first (pages bs) true)
        ≡ some (record {
          device = record d { nvmdev_data = puts d.nvmdev_data (first * 512) (pages bs) };
          segments = pages bs;
        })
    write_lem = ground (
      arith,
      make_request_lem d first (pages bs) v (pages-AllFit bs w),
      total-pages bs,
      v.small,
      v.whole,
    )

    read_lem :
        make_request d (request first (pages bs) false)
        ≡ some (record { device = d; segments = gets d.nvmdev_data (first * 512) (pages bs) })
    read_lem = ground (
      arith,
      make_request_lem d first (pages bs) v (pages-AllFit bs w),
      total-pages bs,
      v.small,
      v.whole,
    )

  pub ram_device_driver-IsLawful : IsLawful ram_device_driver
  ram_device_driver-IsLawful = record {
    written = λ d first bs v w room. (
      record d { nvmdev_data = put (first * 512) bs d.nvmdev_data },
      ap split_finished (write_lem d first bs v w room)
          ∙ ap₂ (λ m l. some (record d { nvmdev_data = m }, l))
              (puts-pages bs d.nvmdev_data (first * 512)) (payloads-pages bs),
      omega (arith, length-put (first * 512) bs d.nvmdev_data, v.whole, v.small),
      refl,
    );
    was_read = λ d first bs v w room.
        ap split_finished (read_lem d first bs v w room)
        ∙ ap (λ l. some (d, l)) (payloads-gets bs d.nvmdev_data (first * 512) room);
  }
