-- ===== src/Nvm/Module.antt =====
-- The devices of code/NVMSIM/ramdevice.c: `nvm_alloc`, `nvm_free`, `nvm_init`, `nvm_exit` and the
-- geometry. The kernel's answers are arguments; what a run acquires and gives back is recorded.
pub mod Laws
pub mod Balance
pub mod Ready
use linux_drivers_study.Prelude.{
  ℕ, zero, suc, ◌+◌, ◌*◌, ◌%◌, ◌^◌, ◌==◌, if◌then◌else◌, Bool, true, false, List, [], ◌∷◌, ◌++◌,
  Option, none, some,
}
use linux_drivers_study.Prelude.Int.{ℤ, pos}
use linux_drivers_study.Kernel.Errno.{enomem, eio, enotty}
use linux_drivers_study.Nvm.Highmem.{Highmem, hmalloc, highmem_map}
use linux_drivers_study.VmemDisk.{Geometry, geometry}

-- The mapping of the reserved memory, the major number, the region of device numbers, and of each device its
-- structure, its data by vmalloc or by hmalloc, its queue and its gendisk.
pub data Resource : Type 0 where
  mapping blkdev region : Resource
  device store reserved queue disk : (index : ℕ) → Resource

-- `vfree_reserved`: vfree of an address that `hmalloc` gave.
pub data Event : Type 0 where
  got gave_back : Resource → Event
  vfree_reserved : (index : ℕ) → Event

-- For a device: whether kzalloc, vmalloc, blk_alloc_queue and alloc_disk succeed.
pub record Answers : Type 0 where
  pub kzalloc : Bool
  pub vmalloc : Bool
  pub alloc_queue : Bool
  pub alloc_disk : Bool

-- The fields of struct nvm_device that the module works with.
pub record Device : Type 0 where
  pub nvmdev_number : ℕ
  pub nvmdev_capacity : ℕ

pub record Allocated : Type 0 where
  pub rtn : Option Device
  pub highmem : Highmem
  pub events : List Event

-- capacity_mb << MB_PER_SECTOR_SHIFT, an unsigned int, and its bytes, an unsigned long.
abbrev pub capacity_of : ℕ → ℕ
capacity_of capacity_mb = capacity_mb * 2 ^ 11 % 2 ^ 32

abbrev pub bytes_of : ℕ → ℕ
bytes_of capacity = capacity * 2 ^ 9 % 2 ^ 64

-- Behind out_free_dev: vfree whatever the memory came from.
abbrev pub vfree_data : Bool → ℕ → Event
vfree_data use_highmem i = if use_highmem then vfree_reserved i else gave_back (store i)

abbrev pub got_data : Bool → ℕ → List Event
got_data use_highmem i = got (if use_highmem then reserved i else store i) ∷ []

-- From the structure and the data on.
unfoldable pub alloc_with_data : Bool → ℕ → ℕ → Answers → Highmem → Allocated
alloc_with_data use_highmem i capacity_mb a h =
    let before = got (device i) ∷ got_data use_highmem i in
    let undone = vfree_data use_highmem i ∷ gave_back (device i) ∷ [] in
    if a.alloc_queue
    then (if a.alloc_disk
        then record {
          rtn = some (record { nvmdev_number = i; nvmdev_capacity = capacity_of capacity_mb });
          highmem = h;
          events = before ++ (got (queue i) ∷ got (disk i) ∷ []);
        }
        else record {
          rtn = none;
          highmem = h;
          events = before ++ (got (queue i) ∷ gave_back (queue i) ∷ undone);
        })
    else record { rtn = none; highmem = h; events = before ++ undone }

-- `use_highmem` is NVM_USE_HIGHMEM(), true in the source.
unfoldable pub nvm_alloc : Bool → ℕ → ℕ → Answers → Highmem → Allocated
unfolding alloc_with_data
nvm_alloc use_highmem i capacity_mb a h =
    let block = hmalloc (bytes_of (capacity_of capacity_mb)) h in
    let no_data : Allocated = record {
      rtn = none;
      highmem = h;
      events = got (device i) ∷ gave_back (device i) ∷ [];
    } in
    let from_highmem : Allocated = elim block.rtn [
      | none ↦ no_data
      | some addr ↦ alloc_with_data use_highmem i capacity_mb a block.highmem
    ] in
    let from_vmalloc : Allocated =
      if a.vmalloc then alloc_with_data use_highmem i capacity_mb a h else no_data in
    if a.kzalloc
    then (if use_highmem then from_highmem else from_vmalloc)
    else record { rtn = none; highmem = h; events = [] }

-- put_disk, blk_cleanup_queue, hfree or vfree, and kfree.
unfoldable pub nvm_free : Bool → Device → List Event
nvm_free use_highmem d =
    let i = d.nvmdev_number in
    gave_back (disk i)
    ∷ gave_back (queue i)
    ∷ gave_back (if use_highmem then reserved i else store i)
    ∷ gave_back (device i)
    ∷ []

-- list_for_each_entry_safe with nvm_free.
unfoldable pub free_all : Bool → List Device → List Event
unfolding nvm_free
free_all use_highmem [] = []
free_all use_highmem (d ∷ ds) = nvm_free use_highmem d ++ free_all use_highmem ds

-- The loop of nvm_init with `n` rounds left: the devices in list order, or `none` at the first that fails
-- with the devices made so far freed.
pub record Made : Type 0 where
  pub rtn : Option (List Device)
  pub events : List Event

unfoldable pub alloc_all : Bool → ℕ → (ℕ → Answers) → ℕ → ℕ → Highmem → List Device → Made
unfolding free_all
alloc_all use_highmem capacity_mb answers zero i h made = record { rtn = some made; events = [] }
alloc_all use_highmem capacity_mb answers (suc n) i h made =
    let a = nvm_alloc use_highmem i capacity_mb (answers i) h in
    elim a.rtn [
      | none ↦ record { rtn = none; events = a.events ++ free_all use_highmem made }
      | some d ↦
          let rest =
            alloc_all use_highmem capacity_mb answers n (i + 1) a.highmem (made ++ (d ∷ [])) in
          record { rtn = rest.rtn; events = a.events ++ rest.events }
    ]

pub record Loaded : Type 0 where
  pub ret : ℤ
  pub list : List Device
  pub events : List Event

-- nvm_init from the registration on. `registered` is the answer of register_blkdev.
unfoldable pub init_mapped : Bool → ℕ → ℕ → (ℕ → Answers) → Bool → Highmem → List Event → Loaded
init_mapped use_highmem num_devices capacity_mb answers registered h before =
    let made = alloc_all use_highmem capacity_mb answers num_devices 0 h [] in
    let loaded : Loaded = elim made.rtn [
      | none ↦ record {
        ret = enomem;
        list = [];
        events = before ++ (got blkdev ∷ (made.events ++ (gave_back blkdev ∷ [])));
      }
      | some ds ↦ record { ret = pos 0; list = ds; events = before ++ (got blkdev ∷ made.events) }
    ] in
    if registered then loaded else record { ret = eio; list = []; events = before }

-- g_highmem_size is nvm_capacity_mb << MB_PER_BYTES_SHIFT. `mapped` is the answer of ioremap_cache.
unfoldable pub nvm_init : Bool → ℕ → ℕ → (ℕ → Answers) → Bool → Option ℕ → Highmem → Loaded
nvm_init use_highmem num_devices capacity_mb answers registered mapped h =
    let sized : Highmem = record h { size = capacity_mb * 2 ^ 20 % 2 ^ 64 } in
    let map = highmem_map mapped sized in
    let on_map : Loaded = elim map.rtn [
      | none ↦ record { ret = enomem; list = []; events = [] }
      | some addr ↦
          init_mapped use_highmem num_devices capacity_mb answers registered map.highmem
            (got mapping ∷ [])
    ] in
    if use_highmem
    then on_map
    else init_mapped use_highmem num_devices capacity_mb answers registered sized []

-- nvm_del_one for every device, blk_unregister_region, and the major number; the mapping stays.
unfoldable pub nvm_exit : Bool → List Device → List Event
unfolding free_all
nvm_exit use_highmem ds = free_all use_highmem ds ++ (gave_back region ∷ gave_back blkdev ∷ [])

-- nvm_ioctl knows no command.
pub ioctl : ℕ → ℤ
ioctl cmd = enotty

-- nvm_disk_getgeo: the size in sectors, HARDSECT_SIZE / KERNEL_SECT_SIZE being 1.
pub getgeo : Device → Geometry
unfolding geometry
getgeo d = geometry d.nvmdev_capacity
