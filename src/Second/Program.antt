-- ===== src/Second/Program.antt =====
-- code/second/second_test.c on the device of code/second/second.c: the program reads the counter over and
-- over and prints it when it has changed.
use linux_drivers_study.Prelude.{
  ℕ, zero, suc, ◌+◌, ◌-◌, ◌*◌, ◌%◌, ◌^◌, ◌≤◌, ◌<◌, ◌≡◌, ◌==◌, if◌then◌else◌, true, false, List, [],
  ◌∷◌, arith, refl, ap, ap₂, sym, ◌∙◌, length, some, none, inl, inr, Bool-cases, ltb,
}
use linux_drivers_study.Prelude.Bytes.{Bytes}
use linux_drivers_study.Kernel.Uaccess.{Uaccess, IsLawful}
use linux_drivers_study.Second.{Second, Clock, open_device, ticks, read, int_bytes}
use linux_drivers_study.Second.Laws.{armed, wait_ticks, ticks-add, fires}

-- The int that four bytes are on a little-endian machine.
abbrev pub of_bytes : Bytes → ℕ
of_bytes (a ∷ b ∷ c ∷ d ∷ []) = a + 256 * b + 65536 * c + 16777216 * d
of_bytes _ = 0

module _ (hz : ℕ) (U : Uaccess) (counter : ℕ) where
  -- The loop, over the ticks that pass before each read: what it prints. `counter` is the address of the
  -- variable, and `old` the value of old_counter.
  unfoldable pub watch : List ℕ → Clock hz → U.User → (old : ℕ) → List ℕ
  watch [] c user old = []
  watch (n ∷ ns) c user old =
      let c' = ticks hz n c in
      let user' = (read U counter 4 c'.dev user).user in
      let value = of_bytes (U.read_user user' counter 4) in
      let rest = watch ns c' user' value in
      if value == old then watch ns c' user' old else value ∷ rest

-- from, from + 1, ..., `n` numbers.
abbrev pub count_from : ℕ → ℕ → List ℕ
count_from from zero = []
count_from from (suc n) = from ∷ count_from (from + 1) n

abbrev pub sum : List ℕ → ℕ
sum [] = 0
sum (n ∷ ns) = n + sum ns

abbrev pub AtMost : ℕ → List ℕ → Type 0
AtMost hz [] = Unit
AtMost hz (n ∷ ns) = (n ≤ hz) × AtMost hz ns

of_bytes-int_bytes : (n : ℕ) → n < 2 ^ 32 → of_bytes (int_bytes n) ≡ n
of_bytes-int_bytes n h = omega arith

module _ (hz : ℕ) where
  -- Ticks up to a full second and beyond, but not to the next.
  over_a_second :
      (n d j counter : ℕ)
      → 0 < d
      → d ≤ n
      → n ≤ hz
      → ticks hz n (armed hz j counter (j + d))
        ≡ armed hz (j + n) ((counter + 1) % 2 ^ 32) (j + d + hz)
  over_a_second n d j counter some_left reached short =
      let k = d - 1 in
      let m = n - d in
      let split : n ≡ k + (1 + m) = omega arith in
      let due : j + d ≡ j + k + 1 = omega arith in
      let landed : j + k + 1 + m ≡ j + n = omega arith in
      ap (λ x. ticks hz x (armed hz j counter (j + d))) split
      ∙ ticks-add hz k (1 + m) (armed hz j counter (j + d))
      ∙ ap (ticks hz (1 + m)) (wait_ticks hz k j counter (j + d) (omega arith))
      ∙ ap (λ at. ticks hz (1 + m) (armed hz (j + k) counter at)) due
      ∙ ticks-add hz 1 m (armed hz (j + k) counter (j + k + 1))
      ∙ ap (ticks hz m) (fires hz (j + k) counter)
      ∙ wait_ticks hz m (j + k + 1) ((counter + 1) % 2 ^ 32) (j + k + 1 + hz) (omega arith)
      ∙ ap (λ x. armed hz x ((counter + 1) % 2 ^ 32) (j + k + 1 + hz)) landed
      ∙ ap (λ x. armed hz (j + n) ((counter + 1) % 2 ^ 32) (x + hz)) (sym due)

module _ (hz : ℕ) (U : Uaccess) (lawful : IsLawful U) (counter : ℕ)
    (mapped : (user : U.User) (bs : Bytes) → (U.copy_to_user user counter bs).0 ≡ 0) where
  value_read :
      (s : Second) (user : U.User)
      → s.counter < 2 ^ 32
      → of_bytes (U.read_user (read U counter 4 s user).user counter 4) ≡ s.counter
  unfolding read
  value_read s user small =
      let bs = int_bytes s.counter in
      let got : U.read_user (U.copy_to_user user counter bs).1 counter 4 ≡ bs =
        lawful.to_user user counter bs (mapped user bs) in
      let stored : (read U counter 4 s user).user ≡ (U.copy_to_user user counter bs).1 =
        rw (read, mapped user bs) refl in
      ap (λ u. of_bytes (U.read_user u counter 4)) stored
      ∙ ap of_bytes got
      ∙ of_bytes-int_bytes s.counter small

  -- A round of the loop that finds the counter at `q`.
  watch_step :
      (n q : ℕ) (ns : List ℕ) (c c' : Clock hz) (user : U.User) (old : ℕ)
      → ticks hz n c ≡ c'
      → c'.dev.counter ≡ q
      → q < 2 ^ 32
      → (user' : U.User) × (watch hz U counter (n ∷ ns) c user old ≡ (
          if q == old
          then watch hz U counter ns c' user' old
          else q ∷ watch hz U counter ns c' user' q))
  unfolding watch
  watch_step n q ns c c' user old reached same small =
      let user' = (read U counter 4 c'.dev user).user in
      let value : of_bytes (U.read_user user' counter 4) ≡ q =
        value_read c'.dev user (omega (arith, small, same)) ∙ same in
      (user', rw (watch, reached, value) refl)

  -- From a state with `q` seconds counted and printed and `d` ticks to the next.
  watch_from :
      (ns : List ℕ) (q j d : ℕ) (user : U.User)
      → 0 < d
      → d ≤ hz
      → AtMost hz ns
      → q + length ns < 2 ^ 32
      → (k : ℕ) × (rest : ℕ) × (rest < hz)
        × (sum ns + (hz - d) ≡ k * hz + rest)
        × (watch hz U counter ns (armed hz j q (j + d)) user q ≡ count_from (q + 1) k)
  unfolding watch
  watch_from [] q j d user some_left short a small = (0, hz - d, omega arith, omega arith, refl)
  watch_from (n ∷ ns) q j d user some_left short a small = elim (Bool-cases (ltb n d)) [
    | inl before ↦
        let h : n < d = ground (arith, before) in
        let due : j + d ≡ j + n + (d - n) = omega arith in
        let reached : ticks hz n (armed hz j q (j + d)) ≡ armed hz (j + n) q (j + n + (d - n)) =
          wait_ticks hz n j q (j + d) (omega arith) ∙ ap (armed hz (j + n) q) due in
        let (user', round) = watch_step n q ns _ _ user q reached refl (omega arith) in
        let (k, rest, below, total, printed) =
          watch_from ns q (j + n) (d - n) user' (omega arith) (omega arith) a.1 (omega arith) in
        let same : (q == q) ≡ true = ground arith in
        (k, rest, below, omega arith, rw same at round ∙ printed)
    | inr after ↦
        let h : d ≤ n = ground (arith, after) in
        let due : j + d + hz ≡ j + n + (d + hz - n) = omega (arith, a.0) in
        let fits : (q + 1) % 2 ^ 32 ≡ q + 1 = omega arith in
        let reached : ticks hz n (armed hz j q (j + d))
            ≡ armed hz (j + n) (q + 1) (j + n + (d + hz - n)) =
          over_a_second hz n d j q some_left h a.0 ∙ ap₂ (armed hz (j + n)) fits due in
        let (user', round) = watch_step n (q + 1) ns _ _ user q reached refl (omega arith) in
        let (k, rest, below, total, printed) =
          watch_from ns (q + 1) (j + n) (d + hz - n) user' (omega (arith, a.0)) (omega arith) a.1
            (omega arith) in
        let new : (q + 1 == q) ≡ false = ground arith in
        (suc k, rest, below, omega (arith, a.0), rw new at round ∙ ap (λ l. (q + 1) ∷ l) printed)
  ]

  -- The program opens a device whose timer was not pending and reads it again at the latest every second,
  -- its variable mapped and fewer than 2 ^ 32 times: it prints 1, 2, 3 and so on, without a gap or a
  -- repetition, up to the number of full seconds that have passed.
  pub prints_seconds :
      (ns : List ℕ) (jiffies : ℕ) (s : Second) (user : U.User)
      → s.expires ≡ none
      → 0 < hz
      → AtMost hz ns
      → length ns < 2 ^ 32
      → (opened : Second) × (open_device hz jiffies s ≡ some opened)
        × ((k : ℕ) × (rest : ℕ) × (rest < hz)
            × (sum ns ≡ k * hz + rest)
            × (watch hz U counter ns (record { jiffies = jiffies; dev = opened }) user 0
                ≡ count_from 1 k))
  unfolding open_device
  prints_seconds ns jiffies s user idle some_hz a small =
      let (k, rest, below, total, printed) =
        watch_from ns 0 jiffies hz user some_hz (omega arith) a (omega arith) in
      (
        record { counter = 0; expires = some (jiffies + hz) },
        rw (idle, open_device) refl,
        (k, rest, below, omega arith, printed),
      )
