-- ===== src/Nvm/Module/Balance.antt =====
-- Counting what `nvm_init` and `nvm_exit` of code/NVMSIM/ramdevice.c acquire and give back.
use linux_drivers_study.Prelude.{
  ℕ, ◌+◌, ◌==◌, if◌then◌else◌, Bool, true, false, List, [], ◌∷◌, ◌++◌, Option, none, some,
}
use linux_drivers_study.Prelude.Int.{is_negative}
use linux_drivers_study.Nvm.Highmem.{Highmem}
use linux_drivers_study.Nvm.Module.{
  Resource, mapping, blkdev, region, device, store, reserved, queue, disk, Event, got, gave_back,
  vfree_reserved, Device, Loaded, nvm_free, free_all, nvm_exit,
}

abbrev pub same : Resource → Resource → Bool
same mapping mapping = true
same blkdev blkdev = true
same region region = true
same (device i) (device j) = i == j
same (store i) (store j) = i == j
same (reserved i) (reserved j) = i == j
same (queue i) (queue j) = i == j
same (disk i) (disk j) = i == j
same _ _ = false

abbrev pub acquired : Resource → List Event → ℕ
acquired r [] = 0
acquired r (got x ∷ es) = (if same r x then 1 else 0) + acquired r es
acquired r (gave_back x ∷ es) = acquired r es
acquired r (vfree_reserved i ∷ es) = acquired r es

abbrev pub returned : Resource → List Event → ℕ
returned r [] = 0
returned r (got x ∷ es) = returned r es
returned r (gave_back x ∷ es) = (if same r x then 1 else 0) + returned r es
returned r (vfree_reserved i ∷ es) = returned r es

-- How often reserved memory was given to vfree.
abbrev pub vfreed : Resource → List Event → ℕ
vfreed r [] = 0
vfreed r (got x ∷ es) = vfreed r es
vfreed r (gave_back x ∷ es) = vfreed r es
vfreed r (vfree_reserved i ∷ es) = (if same r (reserved i) then 1 else 0) + vfreed r es

module _ (r : Resource) (hm : Bool) where
  -- What freeing some devices gives back.
  abbrev owed : List Device → ℕ
  owed ds = returned r (free_all hm ds)

  abbrev owed_by : Option Device → ℕ
  owed_by none = 0
  owed_by (some d) = returned r (nvm_free hm d)

  abbrev owed_all : Option (List Device) → ℕ
  owed_all none = 0
  owed_all (some ds) = owed ds

-- The whole life of the module: loading, and unloading when loading answers success.
abbrev pub life : Bool → Loaded → List Event
life hm loaded = loaded.events ++ (if is_negative loaded.ret then [] else nvm_exit hm loaded.list)

abbrev pub is_some : Option ℕ → Bool
is_some none = false
is_some (some n) = true

abbrev pub one_if : Bool → ℕ
one_if b = if b then 1 else 0
