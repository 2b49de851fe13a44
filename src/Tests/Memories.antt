-- ===== src/Tests/Memories.antt =====
-- Runs of the globalmem and tdlcd drivers, of `llseek`, and of init and exit on small inputs.
use linux_drivers_study.Prelude.{ℕ, ◌≡◌, true, false, [], ◌∷◌, refl, length, replicate, arith}
use linux_drivers_study.Prelude.Bytes.{splice, load}
use linux_drivers_study.Prelude.Int.{pos, negsuc, add_s64}
use linux_drivers_study.Kernel.Outcome.{done, ◌>>◌}
use linux_drivers_study.Kernel.Uaccess.{flat, flat-IsLawful}
use linux_drivers_study.Cdev.{cdev, Answers}
use linux_drivers_study.Cdev.Balance.{acquired, returned, life, life_balanced}
use linux_drivers_study.Globalmem.{Task, globalmem_size, llseek, read, write, copy_in, clip}
use linux_drivers_study.Globalmem.Read.{read_at_end}
use linux_drivers_study.Globalmem.Write.{read-write}
use linux_drivers_study.Globalmem.Multi
use linux_drivers_study.Globalmem.Multi.{Files, devices_isolated}

abbrev user : ℕ → ℕ
user a = a

-- A cleared device, and the file position at byte 4094 of 4096.
abbrev near_end : Task (ℕ → ℕ)
near_end = record { mem = replicate globalmem_size 0; held = false; f_pos = pos 4094; user = user }

near_end-whole : length near_end.mem ≡ globalmem_size
unfolding replicate
near_end-whole = refl

read_at_end_example :
    read flat 100 4 (record near_end { f_pos = negsuc 0 })
    ≡ done (pos 0) (record near_end { f_pos = negsuc 0 })
read_at_end_example = read_at_end flat 100 4 (record near_end { f_pos = negsuc 0 }) (omega arith)

read-write_example :
    (end : Task (ℕ → ℕ)) × ((do write flat 100 4; llseek (pos 4094) 0; read flat 200 4) near_end
      ≡ done (pos 2) end)
    × (flat.read_user end.user 200 2 ≡ 100 ∷ 101 ∷ [])
read-write_example =
    read-write flat 100 200 4 4094 near_end flat-IsLawful near_end-whole refl (omega arith) refl
      refl

abbrev two_devices : Files (ℕ → ℕ)
two_devices = record {
  devices = near_end.mem ∷ (7 ∷ []) ∷ [];
  private_data = 1;
  f_pos = pos 0;
  user = user;
}

abbrev opened : Files (ℕ → ℕ)
opened = record two_devices { private_data = 0 }

abbrev written : Files (ℕ → ℕ)
written = record opened {
  devices = splice near_end.mem 0 (100 ∷ []) ∷ (7 ∷ []) ∷ [];
  f_pos = pos 1;
}

open_first : Multi.open_device 0 two_devices ≡ done (pos 0) opened
unfolding Multi.open_device
open_first = refl

write_first : Multi.write flat 100 1 opened ≡ done (pos 1) written
unfolding Multi.write Multi.on_device write copy_in load clip replicate add_s64
write_first = refl

-- A kernel that grants everything, and one without memory.
abbrev generous : Answers
generous = record {
  register_region = pos 0;
  alloc_region = pos 0;
  alloc_major = 240;
  kzalloc = true;
  cdev_add = λ j. pos 0;
}

abbrev poor : Answers
poor = record generous { kzalloc = false }

life_balanced_example :
    acquired (cdev 3) (life 10 0 generous) ≡ returned (cdev 3) (life 10 0 generous)
life_balanced_example = life_balanced 10 0 generous (cdev 3) (λ j. refl)
