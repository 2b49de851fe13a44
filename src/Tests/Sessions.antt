-- ===== src/Tests/Sessions.antt =====
-- Sessions with the memory devices.
use linux_drivers_study.Prelude.{
  ℕ, ◌-◌, ◌^◌, List, [], ◌∷◌, false, refl, replicate, arith, length-replicate,
}
use linux_drivers_study.Prelude.Int.{pos}
use linux_drivers_study.Kernel.Uaccess.{flat}
use linux_drivers_study.Globalmem.{globalmem_size}
use linux_drivers_study.Globalmem.Session.{
  Call, Session, IsValid, IsComplete, control, seek, read, write, pread, pwrite, run,
}
use linux_drivers_study.Globalmem.Session.Drivers.{globalmem_driver, globalmem_session}
use linux_drivers_study.Tdlcd.Session.{tdlcd_driver, tdlcd_session}

abbrev user : ℕ → ℕ
user a = a

abbrev fresh : Session
fresh = record { mem = replicate globalmem_size 0; held = false; positions = λ file. pos 0 }

fresh-IsValid : IsValid fresh
fresh-IsValid = record {
  whole = length-replicate globalmem_size 0;
  free = refl;
  inside = λ file. omega arith;
}

-- Two files: a write, a read elsewhere from an address that is not mapped, a seek, a pwrite up to the end.
abbrev calls : List (Call (ℕ → ℕ))
calls =
    record { file = 0; user = user; op = write 100 8 }
    ∷ record { file = 1; user = user; op = read 3 8 }
    ∷ record { file = 1; user = user; op = seek (pos 0x1000) 0 }
    ∷ record { file = 0; user = user; op = pwrite 0xff0 200 0x1000 }
    ∷ record { file = 0; user = user; op = control 1 }
    ∷ []

-- And a pread far past the end.
abbrev far_calls : List (Call (ℕ → ℕ))
far_calls = record { file = 0; user = user; op = pread (2 ^ 63 - 1) 100 8 } ∷ calls

globalmem_session_example : IsComplete 6 (run (globalmem_driver flat) far_calls fresh)
globalmem_session_example =
    globalmem_session flat far_calls fresh fresh-IsValid
      (omega arith, (omega arith, (omega arith, (omega arith, (omega arith, (omega arith, tt))))))

tdlcd_session_example : IsComplete 5 (run (tdlcd_driver flat) calls fresh)
tdlcd_session_example =
    tdlcd_session flat calls fresh fresh-IsValid
      (omega arith, (omega arith, (omega arith, (omega arith, (omega arith, tt)))))
