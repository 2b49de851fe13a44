-- ===== src/VmemDisk/Module.antt =====
-- Setting up and tearing down the disks of code/vmem_disk/vmem_disk.c: `setup_device`, `vmem_disk_init` and `vmem_disk_exit`. The
-- kernel's answers are arguments, and what a run acquires and gives back is recorded.
use linux_drivers_study.Prelude.{
  ℕ, zero, suc, ◌+◌, ◌≡◌, ◌==◌, if◌then◌else◌, Bool, true, false, ◌&&◌, not, List, [], ◌∷◌, ◌++◌,
  arith,
}
use linux_drivers_study.Prelude.Int.{ℤ, pos, negsuc, is_negative, exceeds}
use linux_drivers_study.Kernel.Errno.{ebusy, enomem}

-- Of the module: a major number under a name, and the array of devices. Of each device: its data, its
-- queue and its gendisk.
pub data Resource : Type 0 where
  blkdev : (name : ℕ) → Resource
  devices : Resource
  store queue gd : (index : ℕ) → Resource

pub data Event : Type 0 where
  got gave_back : Resource → Event

-- Which of vmalloc, the call that makes the queue, and alloc_disk succeed.
pub record Answers : Type 0 where
  pub vmalloc : Bool
  pub make_queue : Bool
  pub alloc_disk : Bool

-- Which pointers of a device are not NULL afterwards.
pub record Slot : Type 0 where
  pub store : Bool
  pub queue : Bool
  pub gd : Bool

pub record Setup : Type 0 where
  pub slot : Slot
  pub events : List Event

-- Both request modes fail alike. `out_vfree` frees the data and leaves the pointer, and the queue.
unfoldable pub setup_device : ℕ → Answers → Setup
setup_device i a =
    if a.vmalloc
    then (if a.make_queue
        then (if a.alloc_disk
            then record {
              slot = record { store = true; queue = true; gd = true };
              events = got (store i) ∷ got (queue i) ∷ got (gd i) ∷ [];
            }
            else record {
              slot = record { store = true; queue = true; gd = false };
              events = got (store i) ∷ got (queue i) ∷ gave_back (store i) ∷ [];
            })
        else record {
          slot = record { store = true; queue = false; gd = false };
          events = got (store i) ∷ gave_back (store i) ∷ [];
        })
    else record { slot = record { store = false; queue = false; gd = false }; events = [] }

-- One round of the loop of `vmem_disk_exit`.
pub release_device : ℕ → Slot → List Event
release_device i s =
    (if s.gd then gave_back (gd i) ∷ [] else [])
    ++ ((if s.queue then gave_back (queue i) ∷ [] else [])
        ++ (if s.store then gave_back (store i) ∷ [] else []))

abbrev pub same : Resource → Resource → Bool
same (blkdev m) (blkdev n) = m == n
same devices devices = true
same (store i) (store j) = i == j
same (queue i) (queue j) = i == j
same (gd i) (gd j) = i == j
same _ _ = false

abbrev pub acquired : Resource → List Event → ℕ
acquired r [] = 0
acquired r (got x ∷ es) = (if same r x then 1 else 0) + acquired r es
acquired r (gave_back x ∷ es) = acquired r es

abbrev pub returned : Resource → List Event → ℕ
returned r [] = 0
returned r (got x ∷ es) = returned r es
returned r (gave_back x ∷ es) = (if same r x then 1 else 0) + returned r es

-- A device that was set up or that could get no data gives back at exit exactly what it acquired.
-- Where the queue or the gendisk was refused, its data is freed twice, the second time by exit.
pub setup-release_balance :
    (i : ℕ) (a : Answers) (r : Resource)
    → let s = setup_device i a in
      let run = s.events ++ release_device i s.slot in
      returned r run
      ≡ acquired r run
        + (if a.vmalloc && (not (a.make_queue && a.alloc_disk) && same r (store i)) then 1 else 0)
unfolding setup_device release_device
setup-release_balance i a r = ground arith

-- How `vmem_disk_init` ends, with the name that it unregisters under: "vmem_disk" is 0 and "sbd" is 1.
pub record Loaded : Type 0 where
  pub ret : ℤ
  pub events : List Event

abbrev pub vmem_disk : ℕ
vmem_disk = 0

abbrev pub sbd : ℕ
sbd = 1

-- `setup_device(devices + i, i)` for i from `i` on; a device that fails is passed over.
pub setup_all : (ℕ → Answers) → ℕ → ℕ → List Event
setup_all answers zero i = []
setup_all answers (suc n) i = (setup_device i (answers i)).events ++ setup_all answers n (i + 1)

-- The module up to its loop: the result of register_blkdev, and whether kmalloc gave the array. The
-- kernel's register_blkdev(0, name) answers the major that it chose and register_blkdev(m, name)
-- answers 0; either way the name is then registered.
unfoldable pub init_with : ℕ → ℕ → ℕ → ℤ → Bool → (ℕ → Answers) → Loaded
init_with name unregistered count registered kmalloc answers =
    let load : Loaded =
      if kmalloc
      then record {
        ret = pos 0;
        events = got (blkdev name) ∷ got devices ∷ setup_all answers count 0;
      }
      else record {
        ret = enomem;
        events = got (blkdev name) ∷ gave_back (blkdev unregistered) ∷ [];
      } in
    elim registered [
      | negsuc e ↦ record { ret = ebusy; events = [] }
      | pos zero ↦ record { ret = ebusy; events = got (blkdev name) ∷ [] }
      | pos (suc m) ↦ load
    ]

-- NDEVICES is 4.
pub init : ℤ → Bool → (ℕ → Answers) → Loaded
init = init_with vmem_disk sbd 4

-- `vmem_disk_exit`: the loop over the devices, then the name and the array.
pub release_all : (ℕ → Slot) → ℕ → ℕ → List Event
release_all slots zero i = []
release_all slots (suc n) i = release_device i (slots i) ++ release_all slots n (i + 1)

pub exit_with : ℕ → ℕ → (ℕ → Slot) → List Event
exit_with name count slots =
    release_all slots count 0 ++ (gave_back (blkdev name) ∷ gave_back devices ∷ [])

pub exit : (ℕ → Slot) → List Event
exit = exit_with vmem_disk 4

-- An init that fails has left its name registered in two cases, and in those only: register_blkdev
-- answered 0, its success for a fixed major, which is taken for a failure; or the array was refused and
-- the name that is unregistered is another one.
pub init_failure_leaks :
    (name unregistered count : ℕ) (registered : ℤ) (kmalloc : Bool) (answers : ℕ → Answers)
    → is_negative (init_with name unregistered count registered kmalloc answers).ret ≡ true
    → let events = (init_with name unregistered count registered kmalloc answers).events in
      acquired (blkdev name) events
      ≡ returned (blkdev name) events
        + (if is_negative registered
            then 0
            else if exceeds registered 0 && name == unregistered
            then 0
            else 1)
unfolding init_with
init_failure_leaks name unregistered count (pos zero) kmalloc answers h = ground arith
init_failure_leaks name unregistered count (pos (suc m)) kmalloc answers h = ground arith
init_failure_leaks name unregistered count (negsuc e) kmalloc answers h = ground arith
