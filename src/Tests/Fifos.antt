-- ===== src/Tests/Fifos.antt =====
-- Runs of the FIFO drivers on small inputs.
use linux_drivers_study.Prelude.{
  ℕ, ◌≡◌, ◌≢◌, ◌⊎◌, ◌++◌, true, false, [], ◌∷◌, refl, replicate, arith,
}
use linux_drivers_study.Prelude.Bytes.{splice}
use linux_drivers_study.Prelude.Int.{pos}
use linux_drivers_study.Kernel.Uaccess.{flat, flat-IsLawful}
use linux_drivers_study.Fifo.{Fifo, globalfifo_size, quiet, fin, write_section}
use linux_drivers_study.Fifo.Sections.{IsValid, contents, stored, incoming, write_section_refines}
use linux_drivers_study.Fifo.Handlers.{woken, read, write}
use linux_drivers_study.Fifo.Returns.{Returns, woken-Returns}

-- A process whose byte at address `a` is `a`.
abbrev user : ℕ → ℕ
user a = a

abbrev empty : Fifo
empty = record { current_len = 0; mem = replicate globalfifo_size 0; async_queue = [] }

-- After a write of three bytes.
abbrev three : Fifo
three = stored (100 ∷ 101 ∷ 102 ∷ []) 3 empty

abbrev full : Fifo
full = record empty { current_len = globalfifo_size }

empty-IsValid : IsValid empty
empty-IsValid = unfold replicate splice in record { whole = refl; inside = omega arith }

three-IsValid : IsValid three
three-IsValid = unfold replicate splice in record { whole = refl; inside = omega arith }

write_section_refines_example :
    (f' : Fifo) × (failed : Fifo) × (write_section flat true 100 2 three user
      ≡ fin (pos 2) f' user (record quiet { readers = true }))
    × IsValid f'
    × IsValid failed
    × (((incoming flat true 100 2 three user).0 ≢ 0)
        ⊎ (contents f' ≡ contents three ++ (100 ∷ 101 ∷ [])))
    × (contents failed ≡ contents three)
unfolding splice replicate
write_section_refines_example =
    write_section_refines flat true 100 2 three user flat-IsLawful three-IsValid

-- A signal does not come first: the first wake-up finds the device empty again, the second does not.
woken-Returns_example :
    Returns (read flat false 100 3 (woken empty user ∷ woken three user ∷ []) empty user)
    × Returns (write flat false 100 3 (woken empty user ∷ woken empty user ∷ []) empty user)
woken-Returns_example =
    woken-Returns flat false 100 3 (woken empty user ∷ []) empty three empty user user
      (empty-IsValid, tt) empty-IsValid three-IsValid empty-IsValid (omega arith) (omega arith)
