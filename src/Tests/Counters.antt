-- ===== src/Tests/Counters.antt =====
-- Runs of the bit map of code/NVMSIM/bit_map.c and of code/second/second.c on small inputs.
use linux_drivers_study.Prelude.{
  ℕ, ◌<◌, ◌*◌, ◌+◌, ◌≡◌, List, [], ◌∷◌, refl, arith, some, none, true, false, map,
}
use linux_drivers_study.BitMap.{bit_count}
use linux_drivers_study.BitMap.Count.{bit_count-eq-ones}
use linux_drivers_study.BitMap.{Printed}
use linux_drivers_study.BitMap.Program.{program, digits, program_shows_given}
use linux_drivers_study.Second.{Second, open_device}
use linux_drivers_study.Second.Program.{watch, count_from, prints_seconds}
use linux_drivers_study.Kernel.Uaccess.{flat, flat-IsLawful}

bit_count-eq-ones_example : bit_count 0xF000000F ≡ 8
bit_count-eq-ones_example = bit_count-eq-ones 0xF000000F (omega arith)

-- Positions 3 and 5 of six.
program_shows_given_example :
    (outs : List (List Printed)) × (program true 6 (3 ∷ 5 ∷ []) ≡ some outs)
    × (map digits outs ≡ (
        (false ∷ false ∷ false ∷ true ∷ false ∷ false ∷ [])
        ∷ (false ∷ false ∷ false ∷ true ∷ false ∷ true ∷ [])
        ∷ []))
program_shows_given_example = program_shows_given 6 (3 ∷ 5 ∷ []) (omega arith, (omega arith, tt))

-- Six ticks at three a second, with reads after one, four and six.
prints_seconds_example :
    (opened : Second) × (open_device 3 1000 (record { counter = 7; expires = none }) ≡ some opened)
    × ((k : ℕ) × (rest : ℕ) × (rest < 3)
        × (6 ≡ k * 3 + rest)
        × (watch 3 flat 100 (1 ∷ 3 ∷ 2 ∷ []) (record { jiffies = 1000; dev = opened }) (λ a. a) 0
            ≡ count_from 1 k))
prints_seconds_example =
    prints_seconds 3 flat flat-IsLawful 100 (λ u bs. refl) (1 ∷ 3 ∷ 2 ∷ []) 1000
      (record { counter = 7; expires = none }) (λ a. a) refl (omega arith)
      (omega arith, (omega arith, (omega arith, tt))) (omega arith)
