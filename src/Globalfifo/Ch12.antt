-- ===== src/Globalfifo/Ch12.antt =====
-- code/globalfifo/ch12/globalfifo.c: the driver as a platform and misc device. The handlers find the
-- device through `container_of` and are otherwise those of code/globalfifo/ch9; `probe` and `remove`
-- take the place of init and exit.
use linux_drivers_study.Prelude.{ℕ, if◌then◌else◌, Bool, List, [], ◌∷◌}
use linux_drivers_study.Prelude.Int.{ℤ, pos, is_negative}
use linux_drivers_study.Kernel.Errno.{enomem}
use linux_drivers_study.Kernel.Uaccess.{Uaccess}
use linux_drivers_study.Kernel.Fasync.{Fasync}
use linux_drivers_study.Fifo
use linux_drivers_study.Fifo.{Fifo, Section, Ioctl, Poll}
use linux_drivers_study.Fifo.Handlers
use linux_drivers_study.Fifo.Handlers.{Wake, Handled}

pub ioctl : ℕ → Fifo → Ioctl
ioctl = Fifo.ioctl

pub poll : Fifo → Poll
poll = Fifo.poll

module _ (U : Uaccess) (nonblock : Bool) (buf count : ℕ) where
  pub read : List (Wake U.User) → Fifo → U.User → Handled U.User
  read = Handlers.read U nonblock buf count

  pub write : List (Wake U.User) → Fifo → U.User → Handled U.User
  write = Handlers.write U nonblock buf count

-- `filp->private_data` is what the misc core stored, the `miscdev` inside the device.
pub open_device : ℤ
open_device = pos 0

module _ (K : Fasync) (filp : ℕ) where
  pub fasync : ℤ → Bool → Fifo → ℤ × Fifo
  fasync = Fifo.fasync K filp

  pub release : Fifo → ℤ × Fifo
  release = Fifo.release K filp

-- The platform core frees what devm_kzalloc gave, so `probe` has only the misc device to give back.
pub data PlatformCall : Type 0 where
  devm_kzalloc set_drvdata misc_register misc_deregister : PlatformCall

pub record Probed : Type 0 where
  pub ret : ℤ
  pub calls : List PlatformCall

-- Whether devm_kzalloc gave memory, and the result of misc_register.
pub probe : Bool → ℤ → Probed
probe memory registered =
    if memory
    then record {
      ret = if is_negative registered then registered else pos 0;
      calls = devm_kzalloc ∷ set_drvdata ∷ misc_register ∷ [];
    }
    else record { ret = enomem; calls = devm_kzalloc ∷ [] }

pub remove : Probed
remove = record { ret = pos 0; calls = misc_deregister ∷ [] }
