-- ===== src/Nvm/Request.antt =====
-- The request path of code/NVMSIM/ramdevice.c, compiled for 64 bits: `nvm_make_request`, `nvm_do_bvec`
-- and the copies between a page and the device.
pub mod Segments
pub mod Whole
pub mod Store
use linux_drivers_study.Prelude.{
  ℕ, ◌+◌, ◌*◌, ◌/◌, ◌%◌, ◌^◌, ltb, if◌then◌else◌, Bool, true, false, List, [], ◌∷◌, Option, none,
  some,
}
use linux_drivers_study.Prelude.Bytes.{Bytes}
use linux_drivers_study.Prelude.Int.{ℤ, pos}
use linux_drivers_study.Nvm.Copy.{memory_copy}

-- SECTOR_SHIFT is 9.
abbrev pub sector_to_byte : ℕ → ℕ
sector_to_byte n = n * 2 ^ 9 % 2 ^ 64

-- nvmdev_capacity in sectors and nvmdev_data.
pub record Device : Type 0 where
  pub nvmdev_capacity : ℕ
  pub nvmdev_data : Bytes

-- A segment: a page, and the part of it that is to be moved.
pub record BioVec : Type 0 where
  pub bv_page : Bytes
  pub bv_len : ℕ
  pub bv_offset : ℕ

pub copy_from_nvm : Bytes → ℕ → Device → ℕ → ℕ → Option Bytes
copy_from_nvm dest off device sector n =
    memory_copy true dest off device.nvmdev_data (sector_to_byte sector) n

pub copy_to_nvm : Device → Bytes → ℕ → ℕ → ℕ → Option Bytes
copy_to_nvm device src off sector n =
    memory_copy true device.nvmdev_data (sector_to_byte sector) src off n

-- The device and the page after nvm_do_bvec, which returns 0 always.
pub record Moved : Type 0 where
  pub device : Device
  pub page : Bytes
  pub err : ℤ

unfoldable pub do_bvec : Device → Bytes → ℕ → ℕ → Bool → ℕ → Option Moved
unfolding copy_from_nvm copy_to_nvm
do_bvec device page len off write sector =
    let into_page : Option Moved = elim (copy_from_nvm page off device sector len) [
      | none ↦ none
      | some page' ↦ some (record { device = device; page = page'; err = pos 0 })
    ] in
    let into_device : Option Moved = elim (copy_to_nvm device page off sector len) [
      | none ↦ none
      | some bytes ↦
          some (record { device = record device { nvmdev_data = bytes }; page = page; err = pos 0 })
    ] in
    if write then into_device else into_page

pub record Finished : Type 0 where
  pub device : Device
  pub segments : List BioVec

-- bio_for_each_segment. The loop stops at an error of nvm_do_bvec, which there is none of.
unfoldable pub do_segments : Bool → Device → ℕ → List BioVec → Option Finished
do_segments write device sector [] = some (record { device = device; segments = [] })
do_segments write device sector (v ∷ vs) =
    elim (do_bvec device v.bv_page v.bv_len v.bv_offset write sector) [
      | none ↦ none
      | some m ↦ elim (do_segments write m.device ((sector + v.bv_len / 2 ^ 9) % 2 ^ 64) vs) [
        | none ↦ none
        | some rest ↦ some (record {
          device = rest.device;
          segments = record v { bv_page = m.page } ∷ rest.segments;
        })
      ]
    ]

pub record Bio : Type 0 where
  pub bi_sector : ℕ
  pub bi_size : ℕ
  pub write : Bool
  pub segments : List BioVec

-- `capacity` is an unsigned int. Every path ends with bio_endio(bio), which is told no error.
unfoldable pub make_request : Device → Bio → Option Finished
make_request device bio =
    let capacity = device.nvmdev_capacity % 2 ^ 32 in
    let refused : Finished = record { device = device; segments = bio.segments } in
    if ltb capacity ((bio.bi_sector + bio.bi_size / 2 ^ 9) % 2 ^ 64)
    then some refused
    else do_segments bio.write device bio.bi_sector bio.segments
