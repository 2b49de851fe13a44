-- ===== src/Second.antt =====
-- code/second/second.c: a device whose timer counts seconds while it is open.
pub mod Laws
pub mod Program
use linux_drivers_study.Prelude.{
  ℕ, zero, suc, ◌+◌, ◌/◌, ◌%◌, ◌^◌, leb, ◌==◌, if◌then◌else◌, List, [], ◌∷◌, Option, none, some,
}
use linux_drivers_study.Prelude.Int.{ℤ, pos}
use linux_drivers_study.Prelude.Bytes.{Bytes}
use linux_drivers_study.Kernel.Errno.{efault}
use linux_drivers_study.Kernel.Uaccess.{Uaccess}
use linux_drivers_study.Cdev
use linux_drivers_study.Cdev.{Answers, Loaded, Event}

-- struct second_dev: the counter, a 32-bit pattern, and when the timer expires if it is pending.
pub record Second : Type 0 where
  pub counter : ℕ
  pub expires : Option ℕ

-- HZ is the kernel's.
module _ (hz : ℕ) where
  -- second_timer_handler: mod_timer and atomic_inc.
  unfoldable pub timer_handler : ℕ → Second → Second
  timer_handler jiffies s = record {
    counter = (s.counter + 1) % 2 ^ 32;
    expires = some (jiffies + hz);
  }

  -- second_open. `none`: init_timer on a timer that is pending, from an open before, which the kernel
  -- does not allow.
  unfoldable pub open_device : ℕ → Second → Option Second
  open_device jiffies s = elim s.expires [
    | none ↦ some (record { counter = 0; expires = some (jiffies + hz) })
    | some at ↦ none
  ]

  -- The kernel's clock goes on by one tick and runs the handler of a timer whose time has come.
  pub record Clock : Type 0 where
    pub jiffies : ℕ
    pub dev : Second

  unfoldable pub tick : Clock → Clock
  tick c =
      let now = c.jiffies + 1 in
      elim c.dev.expires [
        | none ↦ record { jiffies = now; dev = c.dev }
        | some at ↦ record {
          jiffies = now;
          dev = if leb at now then timer_handler now c.dev else c.dev;
        }
      ]

  unfoldable pub ticks : ℕ → Clock → Clock
  ticks zero c = c
  ticks (suc n) c = ticks n (tick c)

-- second_release: del_timer
unfoldable pub release : Second → Second
release s = record s { expires = none }

-- The four bytes of an int in the memory of a little-endian machine.
abbrev pub int_bytes : ℕ → Bytes
int_bytes n = n % 256 ∷ n / 256 % 256 ∷ n / 65536 % 256 ∷ n / 16777216 % 256 ∷ []

-- second_read: put_user, for which the copy of four bytes stands. `count` is not looked at.
pub record Read (User : Type 0) : Type 0 where
  pub ret : ℤ
  pub user : User

unfoldable pub read : (U : Uaccess) → ℕ → ℕ → Second → U.User → Read U.User
read U buf count s user =
    let (left, user') = U.copy_to_user user buf (int_bytes s.counter) in
    if left == 0
    then record { ret = pos 4; user = user' }
    else record { ret = efault; user = user' }

-- second_init and second_exit: one device.
pub init : ℕ → Answers → Loaded
init = Cdev.init 1

pub exit : ℕ → List Event
exit = Cdev.exit 1
