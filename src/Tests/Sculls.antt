-- ===== src/Tests/Sculls.antt =====
-- Quantum sets and the devices with access control of code/examples/scull, and the disk of
-- code/examples/sbull.
use linux_drivers_study.Prelude.{
  ℕ, ◌≡◌, ◌∷◌, [], some, none, refl, true, false, replicate, length-replicate, List, length, arith,
  ltb, ◌≤◌,
}
use linux_drivers_study.Prelude.Int.{pos, ◌+ℤ◌}
use linux_drivers_study.Kernel.Uaccess.{flat, flat-IsLawful}
use linux_drivers_study.Scull.Device.{Device, Kmalloc}
use linux_drivers_study.Scull.Device.Shape
use linux_drivers_study.Scull.Device.Session
use linux_drivers_study.Scull.Device.Session.{session}
use linux_drivers_study.Scull.Device.Session.Serves.{scull_session}
use linux_drivers_study.Scull.Trim.Balance
use linux_drivers_study.Scull.Trim.Balance.{use_all}
use linux_drivers_study.Scull.Trim.Life.{AllFreed, opened, scull_frees_all}
use linux_drivers_study.Scull.Ioctl.{Answers, Settings, ioctl, command}
use linux_drivers_study.Scull.Ioctl.Permission.{OnlyOpenCommands, ioctl_permission}
use linux_drivers_study.VmemDisk.{Disk}
use linux_drivers_study.Sbull.Idle.{
  Event, opens, closes, ticks, moves, run, spec_run, StandsFor, closed, inserted, media_refines,
}
use linux_drivers_study.Scull.Module
use linux_drivers_study.Scull.Module.{bare, pipes, access, region}
use linux_drivers_study.Scull.Module.Balance.{acquired, returned, life, module_balanced}
use linux_drivers_study.Scull.Access
use linux_drivers_study.Scull.Access.{
  Caller, Owned, Clone, w_open, w_release, c_open, find, try_open,
}
use linux_drivers_study.Scull.Access.Single.{Door, start, after, enters, single_open}
use linux_drivers_study.Scull.Access.Owners
use linux_drivers_study.Scull.Access.Owners.{waiting, users_share_owner}
use linux_drivers_study.Scull.Access.Waiting.{Decided, last_release_serves}
use linux_drivers_study.Scull.Access.Clones.{clone_open, AllValid, empty_device}

-- The contents go round the end of the buffer: 40, 10.
abbrev process : ℕ → ℕ
process a = a

abbrev three_blocks : Kmalloc
three_blocks = record { grants = λ n. ltb n 3; block = λ n. replicate n 9 }

three_blocks-whole : (n : ℕ) → length (three_blocks.block n) ≡ n
three_blocks-whole n = length-replicate n 9

-- Two quanta of four bytes in an item.
abbrev small_device : Device
small_device = record { qsets = []; quantum = 4; qset = 2; size = 0 }

small_device-IsValid : Shape.IsValid small_device
small_device-IsValid = record {
  quantum_positive = omega arith;
  qset_positive = omega arith;
  itemsize_int = omega arith;
  shaped = tt;
}

abbrev device_calls : List (Session.Call (ℕ → ℕ))
device_calls =
    Session.writing three_blocks 100 3 2 process
    ∷ Session.writing three_blocks 100 3 20 process
    ∷ Session.reading three_blocks 200 9 2 process
    ∷ Session.reading three_blocks 200 2 30 process
    ∷ []

scull_session_example : session flat device_calls small_device (λ a. none) ≡ some true
scull_session_example =
    scull_session flat flat-IsLawful device_calls small_device
      (
        omega arith,
        three_blocks-whole,
        (
          omega arith,
          three_blocks-whole,
          (omega arith, three_blocks-whole, (omega arith, three_blocks-whole, tt)),
        ),
      )
      small_device-IsValid

abbrev device_uses : List (Balance.Use (ℕ → ℕ))
device_uses =
    Balance.writing three_blocks 100 3 2 process
    ∷ Balance.trimming 8 1
    ∷ Balance.writing three_blocks 100 3 9 process
    ∷ []

scull_frees_all_example : AllFreed (use_all flat device_uses (opened 4 2)) 4000 1000
scull_frees_all_example =
    scull_frees_all flat flat-IsLawful device_uses 4 2 4000 1000 (omega arith) (omega arith)
      (omega arith)
      (
        omega arith,
        three_blocks-whole,
        (omega arith, omega arith, omega arith, (omega arith, three_blocks-whole, tt)),
      )

-- The pipes get no memory.
abbrev without_pipes : Module.Answers
without_pipes = record {
  region_of = λ p. pos 0;
  kmalloc = λ p. elim p [ bare ↦ true | pipes ↦ false | access ↦ false ];
  cdev_add = λ p j. pos 0;
}

module_balanced_example :
    acquired (region pipes) (life 4 4 without_pipes)
    ≡ returned (region pipes) (life 4 4 without_pipes)
module_balanced_example = module_balanced 4 4 without_pipes (region pipes) refl refl (λ p j. refl)

abbrev plain_user : Answers
plain_user = record { access_ok = true; capable = false; get_user = some (pos 7); put_user = true }

abbrev defaults : Settings
defaults = record { quantum = pos 4000; qset = pos 1000; p_buffer = pos 4000 }

ioctl_permission_example :
    OnlyOpenCommands (command 1 4 1) defaults (ioctl plain_user 100 (command 1 4 1) defaults).now
ioctl_permission_example = ioctl_permission plain_user 100 (command 1 4 1) defaults refl

abbrev one_inside : Door
one_inside = record { available = (try_open (pos 1)).1; held = 1; failing = 0 }

enters_first : (try_open (pos 1)).0 ≡ true
unfolding try_open ◌+ℤ◌
enters_first = refl

single_open_example : (1 ≤ 1) × ((try_open (try_open (pos 1)).1).0 ≡ false)
single_open_example = single_open one_inside (after start (enters enters_first))

abbrev alice : Caller
alice = record { uid = 1; euid = 1; override = false }

abbrev bob : Caller
bob = record { uid = 2; euid = 2; override = false }

abbrev user_opens : List Owners.Use
user_opens =
    Owners.opening true false alice
    ∷ Owners.opening true false bob
    ∷ Owners.opening true true alice
    ∷ Owners.closing 0
    ∷ []

users_share_owner_example : Owners.IsShared (
    Owners.run_uses waiting user_opens
      (record { device = record { count = 0; owner = 0 }; files = [] }))
users_share_owner_example = users_share_owner waiting user_opens 0

abbrev owned_by_alice : Owned
owned_by_alice = record { count = 1; owner = 1 }

last_wakes : (w_release owned_by_alice).wakes ≡ true
unfolding w_release
last_wakes = refl

last_release_serves_example : Decided false (
    w_open false true bob
      (Access.woken owned_by_alice ∷ Access.woken (w_release owned_by_alice).state ∷ [])
      owned_by_alice)
last_release_serves_example =
    last_release_serves false true bob (Access.woken owned_by_alice ∷ []) owned_by_alice
      owned_by_alice last_wakes

abbrev clones : List Clone
clones = record { key = 3; device = small_device } ∷ []

clone_open_example :
    (cs' : List Clone) × (c_open 4 2 true true (some 5) clones ≡ some (pos 0, cs'))
    × AllValid cs'
    × (find 5 cs' ≡ some (empty_device 4 2))
    × (find 3 cs' ≡ some small_device)
clone_open_example =
    clone_open 4 2 true true 5 3 clones (small_device-IsValid, refl, tt) (omega arith) (omega arith)
      (omega arith) (omega arith)

abbrev sectors : Disk
sectors = record { size = 512; bytes = replicate 512 7 }

-- Closed for two ticks.
abbrev media_events : List Event
media_events = opens ∷ closes ∷ ticks ∷ ticks ∷ opens ∷ moves 0 1 (replicate 512 1) false ∷ []

media_refines_example :
    StandsFor 1 (run 1 media_events (closed sectors 5)) (spec_run 1 media_events (inserted sectors))
media_refines_example = media_refines 1 (omega arith) media_events sectors 5
