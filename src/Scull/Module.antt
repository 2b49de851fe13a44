-- ===== src/Scull/Module.antt =====
-- Init and cleanup of code/examples/scull: main.c for the bare devices, pipe.c and access.c for their
-- friends. The kernel's answers are arguments; what is acquired and given back is recorded.
pub mod Balance
use linux_drivers_study.Prelude.{
  ℕ, zero, suc, ◌+◌, if◌then◌else◌, Bool, true, false, List, [], ◌∷◌, ◌++◌, Option, none, some,
}
use linux_drivers_study.Prelude.Int.{ℤ, pos, is_negative}
use linux_drivers_study.Kernel.Errno.{enomem}
use linux_drivers_study.Scull.Access.{Clone}
use linux_drivers_study.Scull.Trim.{trim}

pub data Part : Type 0 where
  bare pipes access : Part

-- The device numbers, the array of devices, and the cdevs of a part.
pub data Resource : Type 0 where
  region memory : Part → Resource
  cdev : Part → ℕ → Resource

pub data Event : Type 0 where
  got refused gave_back : Resource → Event

-- The result of register_chrdev_region, or for the bare devices of alloc_chrdev_region if no major is set;
-- whether kmalloc gives the array; cdev_add of each device.
pub record Answers : Type 0 where
  pub region_of : Part → ℤ
  pub kmalloc : Part → Bool
  pub cdev_add : Part → ℕ → ℤ

-- scull_setup_cdev, scull_p_setup_cdev and scull_access_setup print an error and go on.
unfoldable pub setup_cdev : Answers → Part → ℕ → Event
setup_cdev a part index = elim (a.cdev_add part index) [
  | pos zero ↦ got (cdev part index)
  | _ ↦ refused (cdev part index)
]

unfoldable pub setup_all : Answers → Part → ℕ → ℕ → List Event
setup_all a part zero index = []
setup_all a part (suc n) index = setup_cdev a part index ∷ setup_all a part n (index + 1)

unfoldable pub delete_all : Part → ℕ → ℕ → List Event
delete_all part zero index = []
delete_all part (suc n) index = gave_back (cdev part index) ∷ delete_all part n (index + 1)

-- What an init returns, the devices that it did, whether it keeps an array of them, and what it acquired.
pub record Started : Type 0 where
  pub ret : ℤ
  pub devices : Bool
  pub events : List Event

-- scull_p_init
unfoldable pub p_init : ℕ → Answers → Started
p_init n a =
    if is_negative (a.region_of pipes)
    then record { ret = pos 0; devices = false; events = refused (region pipes) ∷ [] }
    else if a.kmalloc pipes
    then record {
      ret = pos n;
      devices = true;
      events = got (region pipes) ∷ got (memory pipes) ∷ setup_all a pipes n 0;
    }
    else record {
      ret = pos 0;
      devices = false;
      events = got (region pipes) ∷ refused (memory pipes) ∷ gave_back (region pipes) ∷ [];
    }

-- SCULL_N_ADEVS
abbrev pub n_adevs : ℕ
n_adevs = 4

unfoldable pub access_init : Answers → Started
access_init a =
    if is_negative (a.region_of access)
    then record { ret = pos 0; devices = true; events = refused (region access) ∷ [] }
    else record {
      ret = pos n_adevs;
      devices = true;
      events = got (region access) ∷ setup_all a access n_adevs 0;
    }

-- scull_p_cleanup, with every pipe closed, so that no buffer is left.
unfoldable pub p_cleanup : ℕ → Bool → List Event
p_cleanup n devices =
    if devices
    then delete_all pipes n 0 ++ (gave_back (memory pipes) ∷ gave_back (region pipes) ∷ [])
    else []

-- scull_access_cleanup; what it frees of the clones is `free_clones`.
unfoldable pub access_cleanup : List Event
access_cleanup = delete_all access n_adevs 0 ++ (gave_back (region access) ∷ [])

-- How many blocks the loop over the clones frees: those of each device, and its list item. `none` reads past
-- an array.
unfoldable pub free_clones : (quantum qset : ℕ) → List Clone → Option ℕ
free_clones quantum qset [] = some 0
free_clones quantum qset (c ∷ cs) = elim (trim quantum qset c.device) [
  | none ↦ none
  | some t ↦ elim (free_clones quantum qset cs) [ none ↦ none | some m ↦ some (t.freed + 1 + m) ]
]

-- scull_cleanup_module, with whether scull_devices and scull_p_devices are there.
unfoldable pub cleanup : (n n_pipes : ℕ) (devices has_pipes : Bool) → List Event
cleanup n n_pipes devices has_pipes =
    (if devices then delete_all bare n 0 ++ (gave_back (memory bare) ∷ []) else [])
    ++ (gave_back (region bare) ∷ (p_cleanup n_pipes has_pipes ++ access_cleanup))

-- scull_init_module: `devices` says whether scull_p_devices are there afterwards.
unfoldable pub init : (n n_pipes : ℕ) → Answers → Started
init n n_pipes a =
    let friends = p_init n_pipes a in
    if is_negative (a.region_of bare)
    then record { ret = a.region_of bare; devices = false; events = refused (region bare) ∷ [] }
    else if a.kmalloc bare
    then record {
      ret = pos 0;
      devices = friends.devices;
      events =
          got (region bare)
          ∷ got (memory bare)
          ∷ (setup_all a bare n 0 ++ (friends.events ++ (access_init a).events));
    }
    else record {
      ret = enomem;
      devices = false;
      events = got (region bare) ∷ refused (memory bare) ∷ cleanup n n_pipes false false;
    }
