-- ===== src/Scull/Ioctl.antt =====
-- `scull_ioctl` of code/examples/scull/main.c, with the commands of code/examples/scull/scull.h.
pub mod Permission
use linux_drivers_study.Prelude.{
  ℕ, ◌+◌, ◌-◌, ◌*◌, ◌/◌, ◌%◌, ◌^◌, ◌==◌, ltb, if◌then◌else◌, Bool, true, false, not, ◌&&◌, ◌||◌,
  Option, none, some,
}
use linux_drivers_study.Prelude.Int.{ℤ, pos, negsuc}
use linux_drivers_study.Kernel.Errno.{enotty, efault, eperm}

-- scull_quantum, scull_qset and scull_p_buffer, each an `int`.
pub record Settings : Type 0 where
  pub quantum : ℤ
  pub qset : ℤ
  pub p_buffer : ℤ

-- SCULL_QUANTUM and SCULL_QSET
abbrev pub scull_quantum : ℤ
scull_quantum = pos 4000

abbrev pub scull_qset : ℤ
scull_qset = pos 1000

-- What the kernel answers: access_ok, capable(CAP_SYS_ADMIN), the `int` that __get_user reads at `arg`
-- or a fault, and whether __put_user works.
pub record Answers : Type 0 where
  pub access_ok : Bool
  pub capable : Bool
  pub get_user : Option ℤ
  pub put_user : Bool

-- The result, the settings, and the `int` that was stored at `arg`.
pub record Replied (A : Type 0) : Type 0 where
  pub ret : ℤ
  pub now : A
  pub stored : Option ℤ

-- The fields of a command number, and SCULL_IOC_MAGIC, 'k'.
abbrev pub ioc_nr : ℕ → ℕ
ioc_nr cmd = cmd % 2 ^ 8

abbrev pub ioc_type : ℕ → ℕ
ioc_type cmd = cmd / 2 ^ 8 % 2 ^ 8

abbrev pub ioc_dir : ℕ → ℕ
ioc_dir cmd = cmd / 2 ^ 30 % 2 ^ 2

abbrev pub magic : ℕ
magic = 0x6b

-- _IO, _IOW, _IOR and _IOWR of this magic number and, but for the first, an `int`.
abbrev pub command : (dir size nr : ℕ) → ℕ
command dir size nr = dir * 2 ^ 30 + size * 2 ^ 16 + magic * 2 ^ 8 + nr

-- `(int) arg`
abbrev pub to_int : ℕ → ℤ
to_int arg = let w = arg % 2 ^ 32 in if ltb w (2 ^ 31) then pos w else negsuc (2 ^ 32 - 1 - w)

-- The six ways to reach a setting, by the letters of scull.h: S, T, G, Q, X, H.
pub data Way : Type 0 where
  setting telling getting querying exchanging shifting : Way

module _ (k : Answers) (arg : ℕ) where
  abbrev pub denied : ℤ → Replied ℤ
  denied value = record { ret = eperm; now = value; stored = none }

  -- __get_user sets the variable to 0 when it fails.
  abbrev pub get_user : Replied ℤ
  get_user = elim k.get_user [
    | none ↦ record { ret = efault; now = pos 0; stored = none }
    | some v ↦ record { ret = pos 0; now = v; stored = none }
  ]

  abbrev pub put_user : (now value : ℤ) → Replied ℤ
  put_user now value =
      if k.put_user
      then record { ret = pos 0; now = now; stored = some value }
      else record { ret = efault; now = now; stored = none }

  -- The cases of one setting, whose value is `value`.
  unfoldable pub reach : Way → ℤ → Replied ℤ
  reach setting value = if k.capable then get_user else denied value
  reach telling value =
      if k.capable then record { ret = pos 0; now = to_int arg; stored = none } else denied value
  reach getting value = put_user value value
  reach querying value = record { ret = value; now = value; stored = none }
  reach exchanging value =
      let exchanged : Replied ℤ = elim k.get_user [ none ↦ get_user | some v ↦ put_user v value ] in
      if k.capable then exchanged else denied value
  reach shifting value =
      if k.capable then record { ret = value; now = to_int arg; stored = none } else denied value

  abbrev pub in_quantum : Settings → Replied ℤ → Replied Settings
  in_quantum s r = record { ret = r.ret; now = record s { quantum = r.now }; stored = r.stored }

  abbrev pub in_qset : Settings → Replied ℤ → Replied Settings
  in_qset s r = record { ret = r.ret; now = record s { qset = r.now }; stored = r.stored }

  abbrev pub plain : ℤ → Settings → Replied Settings
  plain ret s = record { ret = ret; now = s; stored = none }

  -- switch(cmd)
  unfoldable pub dispatch : ℕ → Settings → Replied Settings
  dispatch cmd s =
      let quantum : Way → Replied Settings = λ w. in_quantum s (reach w s.quantum) in
      let qset : Way → Replied Settings = λ w. in_qset s (reach w s.qset) in
      if cmd == command 0 0 0
      then plain (pos 0) (record s { quantum = scull_quantum; qset = scull_qset })
      else if cmd == command 1 4 1
      then quantum setting
      else if cmd == command 0 0 3
      then quantum telling
      else if cmd == command 2 4 5
      then quantum getting
      else if cmd == command 0 0 7
      then quantum querying
      else if cmd == command 3 4 9
      then quantum exchanging
      else if cmd == command 0 0 11
      then quantum shifting
      else if cmd == command 1 4 2
      then qset setting
      else if cmd == command 0 0 4
      then qset telling
      else if cmd == command 2 4 6
      then qset getting
      else if cmd == command 0 0 8
      then qset querying
      else if cmd == command 3 4 10
      then qset exchanging
      else if cmd == command 0 0 12
      then qset shifting
      else if cmd == command 0 0 13
      then plain (pos 0) (record s { p_buffer = to_int arg })
      else if cmd == command 0 0 14
      then plain s.p_buffer s
      else plain enotty s

  unfoldable pub ioctl : ℕ → Settings → Replied Settings
  ioctl cmd s =
      if not (ioc_type cmd == magic)
      then plain enotty s
      else if ltb 14 (ioc_nr cmd)
      then plain enotty s
      else if not (ioc_dir cmd == 0) && not k.access_ok
      then plain efault s
      else dispatch cmd s
