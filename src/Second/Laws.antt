-- ===== src/Second/Laws.antt =====
-- The counter of code/second/second.c as time goes on.
use linux_drivers_study.Prelude.{
  ℕ, zero, suc, ◌+◌, ◌-◌, ◌*◌, ◌%◌, ◌^◌, ◌<◌, ◌≡◌, arith, refl, ap, sym, ◌∙◌, some, none,
}
use linux_drivers_study.Second.{Second, Clock, timer_handler, open_device, tick, ticks}

module _ (hz : ℕ) where
  -- A device whose timer expires at `at`.
  abbrev pub armed : ℕ → ℕ → ℕ → Clock hz
  armed jiffies counter at = record {
    jiffies = jiffies;
    dev = record { counter = counter; expires = some at };
  }

  pub wait_ticks :
      (r j counter at : ℕ) → j + r < at → ticks hz r (armed j counter at) ≡ armed (j + r) counter at
  unfolding ticks tick
  wait_ticks zero j counter at h = ground arith
  wait_ticks (suc r) j counter at h = ground (arith, wait_ticks r (j + 1) counter at (omega arith))

  pub ticks-add : (a b : ℕ) (c : Clock hz) → ticks hz (a + b) c ≡ ticks hz b (ticks hz a c)
  unfolding ticks
  ticks-add zero b c = let nothing : 0 + b ≡ b = omega arith in ap (λ n. ticks hz n c) nothing
  ticks-add (suc a) b c =
      let later : suc a + b ≡ suc (a + b) = omega arith in
      ap (λ n. ticks hz n c) later ∙ ticks-add a b (tick hz c)

  pub fires :
      (j counter : ℕ)
      → ticks hz 1 (armed j counter (j + 1)) ≡ armed (j + 1) ((counter + 1) % 2 ^ 32) (j + 1 + hz)
  unfolding ticks tick timer_handler
  fires j counter = ground arith

  one_second :
      (j counter : ℕ)
      → 0 < hz
      → ticks hz hz (armed j counter (j + hz))
        ≡ armed (j + hz) ((counter + 1) % 2 ^ 32) (j + hz + hz)
  one_second j counter some_hz =
      let k = hz - 1 in
      let e : hz ≡ k + 1 = omega arith in
      let due : j + hz ≡ j + k + 1 = omega arith in
      ap (λ n. ticks hz n (armed j counter (j + hz))) e
      ∙ ticks-add k 1 (armed j counter (j + hz))
      ∙ ap (ticks hz 1) (wait_ticks k j counter (j + hz) (omega arith))
      ∙ ap (λ at. ticks hz 1 (armed (j + k) counter at)) due
      ∙ fires (j + k) counter
      ∙ ap (λ at. armed at ((counter + 1) % 2 ^ 32) (at + hz)) (sym due)

  seconds :
      (q j counter : ℕ)
      → 0 < hz
      → counter < 2 ^ 32
      → ticks hz (q * hz) (armed j counter (j + hz))
        ≡ armed (j + q * hz) ((counter + q) % 2 ^ 32) (j + q * hz + hz)
  unfolding ticks
  seconds zero j counter some_hz small = ground arith
  seconds (suc q) j counter some_hz small =
      let split : suc q * hz ≡ hz + q * hz = omega arith in
      ap (λ n. ticks hz n (armed j counter (j + hz))) split
      ∙ ticks-add hz (q * hz) (armed j counter (j + hz))
      ∙ ap (ticks hz (q * hz)) (one_second j counter some_hz)
      ∙ seconds q (j + hz) ((counter + 1) % 2 ^ 32) some_hz (omega arith)
      ∙ ground arith

  -- Once opened, a device whose timer was not pending counts one for every `hz` ticks that have passed,
  -- modulo 2 ^ 32, and keeps the next expiry at the next full second.
  pub counts_seconds :
      (jiffies q r : ℕ) (s : Second)
      → s.expires ≡ none
      → 0 < hz
      → r < hz
      → (opened : Second) × (open_device hz jiffies s ≡ some opened)
        × (ticks hz (q * hz + r) (record { jiffies = jiffies; dev = opened }) ≡ record {
          jiffies = jiffies + q * hz + r;
          dev = record { counter = q % 2 ^ 32; expires = some (jiffies + q * hz + hz) };
        })
  unfolding open_device
  counts_seconds jiffies q r s idle some_hz inside = (
    record { counter = 0; expires = some (jiffies + hz) },
    rw (idle, open_device) refl,
    ticks-add (q * hz) r (armed jiffies 0 (jiffies + hz))
        ∙ ap (ticks hz r) (seconds q jiffies 0 some_hz (omega arith))
        ∙ wait_ticks r (jiffies + q * hz) ((0 + q) % 2 ^ 32) (jiffies + q * hz + hz) (omega arith)
        ∙ ground arith,
  )
