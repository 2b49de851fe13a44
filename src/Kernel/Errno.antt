-- ===== src/Kernel/Errno.antt =====
-- The error numbers that the drivers return, as the negative values of the C code.
use linux_drivers_study.Prelude.Int.{ℤ, negsuc}

-- -EIO is -5.
abbrev pub eio : ℤ
eio = negsuc 4

-- -EAGAIN is -11.
abbrev pub eagain : ℤ
eagain = negsuc 10

-- -ENOMEM is -12.
abbrev pub enomem : ℤ
enomem = negsuc 11

-- -EFAULT is -14.
abbrev pub efault : ℤ
efault = negsuc 13

-- -EBUSY is -16.
abbrev pub ebusy : ℤ
ebusy = negsuc 15

-- -EINVAL is -22.
abbrev pub einval : ℤ
einval = negsuc 21

-- -ENOTTY is -25.
abbrev pub enotty : ℤ
enotty = negsuc 24

-- -ERESTARTSYS is -512.
abbrev pub erestartsys : ℤ
erestartsys = negsuc 511

-- -EPERM is -1.
abbrev pub eperm : ℤ
eperm = negsuc 0
