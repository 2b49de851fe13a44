-- ===== src/Scull/Access.antt =====
-- code/examples/scull/access.c: who may open a scull device. `trims` says whether an open calls
-- `scull_trim`, which makes the device empty.
pub mod Single
pub mod Owners
pub mod Waiting
pub mod Clones
use linux_drivers_study.Prelude.{
  ℕ, ◌+◌, ◌-◌, ◌==◌, if◌then◌else◌, Bool, true, false, not, ◌&&◌, ◌||◌, List, [], ◌∷◌, Option, none,
  some,
}
use linux_drivers_study.Prelude.Int.{ℤ, pos, negsuc, ◌+ℤ◌}
use linux_drivers_study.Kernel.Errno.{ebusy, eagain, erestartsys, einval, enomem}
use linux_drivers_study.Scull.Device.{Device}
use linux_drivers_study.Scull.Trim.{Trimmed, trim}

-- The single-open device: scull_s_available. `try_open` is the atomic decrement and its test; an open that
-- fails undoes it in a second atomic step.
unfoldable pub try_open : ℤ → Bool × ℤ
try_open available =
    let lower = available +ℤ negsuc 0 in (elim lower [ pos n ↦ n == 0 | negsuc n ↦ false ], lower)

-- atomic_inc, of a failing open and of release.
unfoldable pub give_back : ℤ → ℤ
give_back available = available +ℤ pos 1

pub record Opened (S : Type 0) : Type 0 where
  pub ret : ℤ
  pub state : S
  pub trims : Bool

unfoldable pub s_open : (write_only : Bool) → ℤ → Opened ℤ
s_open write_only available =
    let (got, lower) = try_open available in
    if not got
    then record { ret = ebusy; state = give_back lower; trims = false }
    else record { ret = pos 0; state = lower; trims = write_only }

unfoldable pub s_release : ℤ → ℤ × ℤ
s_release available = (pos 0, give_back available)

-- The calling process: current->uid, current->euid, capable(CAP_DAC_OVERRIDE).
pub record Caller : Type 0 where
  pub uid : ℕ
  pub euid : ℕ
  pub override : Bool

-- scull_u_count and scull_u_owner, and scull_w_count and scull_w_owner. A count does not pass 2 ^ 31, and a
-- release follows an open.
pub record Owned : Type 0 where
  pub count : ℕ
  pub owner : ℕ

-- The first to open grabs the device.
abbrev pub grabbed : Caller → Owned → Owned
grabbed c o = record { count = o.count + 1; owner = if o.count == 0 then c.uid else o.owner }

unfoldable pub u_open : (write_only : Bool) → Caller → Owned → Opened Owned
u_open write_only c o =
    if not (o.count == 0) && not (o.owner == c.uid) && not (o.owner == c.euid) && not c.override
    then record { ret = ebusy; state = o; trims = false }
    else record { ret = pos 0; state = grabbed c o; trims = write_only }

unfoldable pub u_release : Owned → ℤ × Owned
u_release o = (pos 0, record o { count = o.count - 1 })

-- scull_w_available
unfoldable pub w_available : Caller → Owned → Bool
w_available c o = (o.count == 0) || (o.owner == c.uid) || (o.owner == c.euid) || c.override

-- One round of the loop of `scull_w_open` with the lock: `none` sleeps.
unfoldable pub w_section : (nonblock write_only : Bool) → Caller → Owned → Option (Opened Owned)
w_section nonblock write_only c o =
    if w_available c o
    then some (record { ret = pos 0; state = grabbed c o; trims = write_only })
    else if nonblock
    then some (record { ret = eagain; state = o; trims = false })
    else none

-- How wait_event_interruptible comes back, and the owner as it is when the lock is taken again.
pub data Wake : Type 0 where
  signal woken : Owned → Wake

-- `none`: still asleep at the end of the schedule.
unfoldable pub w_open :
    (nonblock write_only : Bool) → Caller → List Wake → Owned → Option (Opened Owned)
w_open nonblock write_only c [] o = w_section nonblock write_only c o
w_open nonblock write_only c (signal o' ∷ ws) o = elim (w_section nonblock write_only c o) [
  | none ↦ some (record { ret = erestartsys; state = o'; trims = false })
  | some r ↦ some r
]
w_open nonblock write_only c (woken o' ∷ ws) o =
    let rest = w_open nonblock write_only c ws o' in
    elim (w_section nonblock write_only c o) [ none ↦ rest | some r ↦ some r ]

-- The last release wakes those who wait.
pub record Released : Type 0 where
  pub ret : ℤ
  pub state : Owned
  pub wakes : Bool

unfoldable pub w_release : Owned → Released
w_release o = record {
  ret = pos 0;
  state = record o { count = o.count - 1 };
  wakes = o.count - 1 == 0;
}

-- A cloned device, and the device number of the terminal that it belongs to.
pub record Clone : Type 0 where
  pub key : ℕ
  pub device : Device

-- The clone of a terminal: its device.
abbrev pub find : ℕ → List Clone → Option Device
find key [] = none
find key (c ∷ cs) = if c.key == key then some c.device else find key cs

-- `quantum` and `qset`: scull_quantum and scull_qset, which the trim of the new device stores.
unfoldable pub c_lookfor_device :
    (quantum qset : ℕ) (granted : Bool) → ℕ → List Clone → Option (List Clone)
c_lookfor_device quantum qset granted key cs =
    let fresh : Device = record { qsets = []; quantum = quantum; qset = qset; size = 0 } in
    elim (find key cs) [
      | some d ↦ some cs
      | none ↦ if granted then some (record { key = key; device = fresh } ∷ cs) else none
    ]

-- The list with the device of this terminal replaced.
abbrev pub replace : ℕ → Device → List Clone → List Clone
replace key d [] = []
replace key d (c ∷ cs) = if c.key == key then record c { device = d } ∷ cs else c ∷ replace key d cs

-- `tty`: the device number of the terminal of the caller. `none` of the result: the trim leaves an array.
unfoldable pub c_open :
    (quantum qset : ℕ) (granted write_only : Bool) (tty : Option ℕ)
    → List Clone
    → Option (ℤ × List Clone)
c_open quantum qset granted write_only none cs = some (einval, cs)
c_open quantum qset granted write_only (some key) cs =
    elim (c_lookfor_device quantum qset granted key cs) [
      | none ↦ some (enomem, cs)
      | some cs' ↦
          if write_only
          then elim (find key cs') [
            | none ↦ none
            | some d ↦ elim (trim quantum qset d) [
              | none ↦ none
              | some t ↦ some (pos 0, replace key t.device cs')
            ]
          ]
          else some (pos 0, cs')
    ]

pub c_release : ℤ
c_release = pos 0
