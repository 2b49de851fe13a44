-- ===== src/Globalfifo/Platform.antt =====
-- code/globalfifo/ch12/globalfifo-dev.c: the module that adds the platform device, and the platform
-- driver of code/globalfifo/ch12/globalfifo.c that binds to it.
use linux_drivers_study.Prelude.{
  ℕ, zero, ◌+◌, ◌≡◌, if◌then◌else◌, Bool, true, false, List, [], ◌∷◌, ◌++◌, arith,
}
use linux_drivers_study.Prelude.Int.{ℤ, pos}
use linux_drivers_study.Kernel.Errno.{enomem}

-- platform_device_alloc, platform_device_add, platform_device_put, platform_device_unregister.
pub data DeviceCall : Type 0 where
  allocated alloc_refused added add_refused put unregistered : DeviceCall

pub record Ran : Type 0 where
  pub ret : ℤ
  pub calls : List DeviceCall

abbrev pub is_zero : ℤ → Bool
is_zero (pos zero) = true
is_zero _ = false

-- Whether platform_device_alloc gave a device, and the result of platform_device_add. Any result but 0
-- is a failure.
unfoldable pub globalfifodev_init : Bool → ℤ → Ran
globalfifodev_init memory add =
    if memory
    then (if is_zero add
        then record { ret = pos 0; calls = allocated ∷ added ∷ [] }
        else record { ret = add; calls = allocated ∷ add_refused ∷ put ∷ [] })
    else record { ret = enomem; calls = alloc_refused ∷ [] }

unfoldable pub globalfifodev_exit : List DeviceCall
globalfifodev_exit = unregistered ∷ []

-- References to the device and registrations of it that a run takes, and those that it drops.
-- Unregistering drops one of each.
abbrev pub taken : List DeviceCall → ℕ × ℕ
taken [] = (0, 0)
taken (allocated ∷ rest) = (1 + (taken rest).0, (taken rest).1)
taken (added ∷ rest) = ((taken rest).0, 1 + (taken rest).1)
taken (_ ∷ rest) = taken rest

abbrev pub dropped : List DeviceCall → ℕ × ℕ
dropped [] = (0, 0)
dropped (put ∷ rest) = (1 + (dropped rest).0, (dropped rest).1)
dropped (unregistered ∷ rest) = (1 + (dropped rest).0, 1 + (dropped rest).1)
dropped (_ ∷ rest) = dropped rest

-- The loader runs exit only after an init that returned 0. An init that fails has dropped what it took, and one that succeeds has dropped it once exit has run,
-- for all answers of the kernel.
pub globalfifodev_balanced :
    (memory : Bool) (add : ℤ)
    → let run = globalfifodev_init memory add in
      let life = if is_zero run.ret then run.calls ++ globalfifodev_exit else run.calls in
      taken life ≡ dropped life
unfolding globalfifodev_init globalfifodev_exit
globalfifodev_balanced memory add = ground arith
