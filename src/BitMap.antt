-- ===== src/BitMap.antt =====
-- code/NVMSIM/bit_map.c and code/NVMSIM/bit_map.h: an array of 32-bit words, a bit of which is set or
-- tested at a position, and the number of ones in a word.
pub mod Bitwise
pub mod Stages
pub mod Count
pub mod Set
pub mod Program
use linux_drivers_study.Prelude.Int.{ℤ, pos, negsuc}
use linux_drivers_study.Prelude.{
  Bool, not, List, [], ◌∷◌, ◌++◌, Option, none, some, get_elem?, set, replicate, ◌==◌, zero, suc, ℕ,
  ◌+◌, ◌-◌, ◌*◌, ◌/◌, ◌%◌, ◌^◌, ltb, if◌then◌else◌,
}
use linux_drivers_study.BitMap.Bitwise.{bits_and, bits_or}

-- A 32-bit int is its pattern, a number below 2 ^ 32. Its sum, and its shift to the right, which fills
-- with the sign.
abbrev pub add_int : ℕ → ℕ → ℕ
add_int a b = (a + b) % 2 ^ 32

unfoldable pub shift_right : ℕ → ℕ → ℕ
shift_right a k = if ltb a (2 ^ 31) then a / 2 ^ k else a / 2 ^ k + (2 ^ 32 - 2 ^ (32 - k))

-- bitCount
unfoldable pub bit_count : ℕ → ℕ
bit_count x =
    let c1 = add_int (bits_and 32 x 0x55555555) (bits_and 32 (shift_right x 1) 0x55555555) in
    let c2 = add_int (bits_and 32 c1 0x33333333) (bits_and 32 (shift_right c1 2) 0x33333333) in
    let c3 = add_int (bits_and 32 c2 0x0F0F0F0F) (bits_and 32 (shift_right c2 4) 0x0F0F0F0F) in
    let c4 = add_int (bits_and 32 c3 0x00FF00FF) (bits_and 32 (shift_right c3 8) 0x00FF00FF) in
    add_int (bits_and 32 c4 0x0000FFFF) (bits_and 32 (shift_right c4 16) 0x0000FFFF)

-- The words of the map, of BIT_WIDTH_IN_BITS digits each.
abbrev pub width_in_bits : ℕ
width_in_bits = 32

-- BIT_OFFSET and INT_OFFSET
abbrev pub bit_offset : ℕ → ℕ
bit_offset p = p % width_in_bits

abbrev pub int_offset : ℕ → ℕ
int_offset p = p / width_in_bits

-- init_bitmap: whether calloc gave memory.
pub record Made : Type 0 where
  pub ret : ℤ
  pub words : List ℕ

pub init_bitmap : Bool → List ℕ → ℕ → Made
init_bitmap calloc words num =
    if calloc
    then record { ret = pos 0; words = replicate (num / width_in_bits + 1) 0 }
    else record { ret = negsuc 0; words = words }

-- SET_BITMAP; `none` is an access outside the array.
unfoldable pub set_bitmap : List ℕ → ℕ → Option (List ℕ)
set_bitmap words p = elim (get_elem? words (int_offset p)) [
  | none ↦ none
  | some w ↦ some (set words (int_offset p) (bits_or 32 w (2 ^ bit_offset p)))
]

-- BOOL_ONE and FIND_POS_EQUL_ONE_BITMAP
unfoldable pub bool_one : List ℕ → ℕ → Option ℕ
bool_one words p = elim (get_elem? words (int_offset p)) [
  | none ↦ none
  | some w ↦ some (bits_and 32 w (2 ^ bit_offset p))
]

-- What the loop of printb prints: a digit, or one of the three separators.
pub data Printed : Type 0 where
  digit : Bool → Printed
  space gap line_end : Printed

separator : ℕ → List Printed
separator i =
    if (i + 1) % 4 == 0
    then space ∷ []
    else if (i + 1) % 8 == 0
    then gap ∷ []
    else if (i + 1) % width_in_bits == 0
    then line_end ∷ []
    else []

-- The loop of printb from `i` on, with `n` rounds left.
unfoldable pub print_from : List ℕ → ℕ → ℕ → Option (List Printed)
unfolding separator
print_from words zero i = some []
print_from words (suc n) i = elim (bool_one words i) [
  | none ↦ none
  | some t ↦ elim (print_from words n (i + 1)) [
    | none ↦ none
    | some rest ↦ some (digit (not (t == 0)) ∷ (separator i ++ rest))
  ]
]

pub printb : List ℕ → ℕ → Option (List Printed)
printb words len = print_from words len 0
