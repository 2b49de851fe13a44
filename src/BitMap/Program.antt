-- ===== src/BitMap/Program.antt =====
-- `main` of code/NVMSIM/bit_map.c: positions are read one after the other, each is set, and the map is
-- printed after each.
use linux_drivers_study.Prelude.{
  ℕ, zero, suc, ◌+◌, ◌*◌, ◌/◌, ◌%◌, ◌^◌, ◌≤◌, ◌<◌, ◌≡◌, ◌==◌, ◌++◌, if◌then◌else◌, Bool, true,
  false, not, List, [], ◌∷◌, Option, none, some, arith, refl, length, length-replicate, replicate,
  get_elem?, member, ap, ap₂, ◌∙◌, map,
}
use linux_drivers_study.BitMap.{
  init_bitmap, set_bitmap, bool_one, Printed, digit, space, gap, line_end, separator, print_from,
  printb,
}
use linux_drivers_study.BitMap.Bitwise.{bits_and}
use linux_drivers_study.BitMap.Set.{bool_one-set_bitmap}

-- The loop, over the positions that scanf gives; `none` is an access outside the array.
unfoldable pub program_from : (size : ℕ) → List ℕ → List ℕ → Option (List (List Printed))
program_from size words [] = some []
program_from size words (code ∷ codes) = elim (set_bitmap words code) [
  | none ↦ none
  | some words' ↦ elim (printb words' size) [
    | none ↦ none
    | some out ↦ elim (program_from size words' codes) [
      | none ↦ none
      | some rest ↦ some (out ∷ rest)
    ]
  ]
]

-- The result of init_bitmap is not looked at; without memory the map stays NULL, an array of no words.
unfoldable pub program : (calloc : Bool) (size : ℕ) → List ℕ → Option (List (List Printed))
program calloc size codes = program_from size (init_bitmap calloc [] size).words codes

-- The digits of what was printed.
abbrev pub digits : List Printed → List Bool
digits [] = []
digits (digit b ∷ out) = b ∷ digits out
digits (space ∷ out) = digits out
digits (gap ∷ out) = digits out
digits (line_end ∷ out) = digits out

-- The `n` positions from `i` on: which of them were given.
abbrev pub given_from : List ℕ → ℕ → ℕ → List Bool
given_from seen zero i = []
given_from seen (suc n) i = member i seen ∷ given_from seen n (i + 1)

-- What is to be shown after each position.
abbrev pub shown : ℕ → List ℕ → List ℕ → List (List Bool)
shown size seen [] = []
shown size seen (code ∷ codes) = given_from (code ∷ seen) size 0 ∷ shown size (code ∷ seen) codes

-- The map holds exactly the positions that were given.
record Holds (size : ℕ) (words : List ℕ) (seen : List ℕ) : Type 0 where
  long : length words ≡ size / 32 + 1
  bits : (q : ℕ) → q ≤ size → bool_one words q ≡ some (if member q seen then 2 ^ (q % 32) else 0)

get_elem?-replicate : (n i : ℕ) → i < n → get_elem? {A = ℕ} (replicate n 0) i ≡ some 0
unfolding replicate
get_elem?-replicate zero i h = absurd (omega arith)
get_elem?-replicate (suc n) zero h = refl
get_elem?-replicate (suc n) (suc i) h = get_elem?-replicate n i (omega arith)

zero_bits_and : (n x : ℕ) → bits_and n 0 x ≡ 0
unfolding bits_and
zero_bits_and zero x = refl
zero_bits_and (suc n) x = omega (arith, zero_bits_and n (x / 2))

power_nonzero : (k : ℕ) → (2 ^ k == 0) ≡ false
power_nonzero zero = refl
power_nonzero (suc k) = ground (arith, power_nonzero k)

fresh-Holds : (size : ℕ) → Holds size (init_bitmap true [] size).words []
unfolding init_bitmap bool_one
fresh-Holds size = record {
  long = length-replicate (size / 32 + 1) 0;
  bits = λ q h.
      rw (bool_one, get_elem?-replicate (size / 32 + 1) (q / 32) (omega arith))
        (ap some (zero_bits_and 32 (2 ^ (q % 32))));
}

-- Setting a position within the size stays in the array and adds that position.
set_bitmap-Holds :
    (size : ℕ) (words seen : List ℕ) (code : ℕ)
    → Holds size words seen
    → code ≤ size
    → (words' : List ℕ) × (set_bitmap words code ≡ some words') × Holds size words' (code ∷ seen)
set_bitmap-Holds size words seen code h inside =
    let room : code < length words * 32 = omega (arith, h.long) in
    let (words', ends, same, test) = bool_one-set_bitmap words code 0 room in
    (
      words',
      ends,
      record {
        long = same ∙ h.long;
        bits = λ q l.
            let (w, ends', same', test') = bool_one-set_bitmap words code q room in
            let one : w ≡ words' = cc in ground (arith, rw one at test', h.bits q l);
      },
    )

bit_shown : (i : ℕ) (b : Bool) → not ((if b then 2 ^ (i % 32) else 0) == 0) ≡ b
bit_shown i true = ap not (power_nonzero (i % 32))
bit_shown i false = refl

digits-separator : (i : ℕ) (out : List Printed) → digits (separator i ++ out) ≡ digits out
unfolding separator
digits-separator i out = ground arith

-- Printing shows the positions that were given.
print_from-Holds :
    (size : ℕ) (words seen : List ℕ) (n i : ℕ)
    → Holds size words seen
    → i + n ≤ size
    → (out : List Printed) × (print_from words n i ≡ some out) × (digits out ≡ given_from seen n i)
unfolding print_from
print_from-Holds size words seen zero i h room = ([], refl, refl)
print_from-Holds size words seen (suc n) i h room =
    let (rest, ends, same) = print_from-Holds size words seen n (i + 1) h (omega arith) in
    let bit : ℕ = if member i seen then 2 ^ (i % 32) else 0 in
    (
      digit (not (bit == 0)) ∷ (separator i ++ rest),
      rw (print_from, h.bits i (omega arith), ends) refl,
      ap₂ ◌∷◌ (bit_shown i (member i seen)) (digits-separator i rest ∙ same),
    )

abbrev pub AtMost : ℕ → List ℕ → Type 0
AtMost size [] = Unit
AtMost size (code ∷ codes) = (code ≤ size) × AtMost size codes

program_from-shown :
    (size : ℕ) (words seen codes : List ℕ)
    → Holds size words seen
    → AtMost size codes
    → (outs : List (List Printed)) × (program_from size words codes ≡ some outs)
      × (map digits outs ≡ shown size seen codes)
unfolding program_from printb
program_from-shown size words seen [] h a = ([], refl, refl)
program_from-shown size words seen (code ∷ codes) h a =
    let (words', set_ends, h') = set_bitmap-Holds size words seen code h a.0 in
    let (out, print_ends, same) =
      print_from-Holds size words' (code ∷ seen) size 0 h' (omega arith) in
    let (outs, ends, same') = program_from-shown size words' (code ∷ seen) codes h' a.1 in
    (out ∷ outs, rw (program_from, set_ends, printb, print_ends, ends) refl, ap₂ ◌∷◌ same same')

-- With memory for the map, and for positions up to the size that was asked for: nothing outside the array
-- is accessed, and after each position the digits that are printed are 1 for the positions given so far
-- and 0 for the others, in order.
pub program_shows_given :
    (size : ℕ) (codes : List ℕ)
    → AtMost size codes
    → (outs : List (List Printed)) × (program true size codes ≡ some outs)
      × (map digits outs ≡ shown size [] codes)
unfolding program
program_shows_given size codes a =
    program_from-shown size (init_bitmap true [] size).words [] codes (fresh-Holds size) a
