-- ===== src/BitMap/Count.antt =====
-- bitCount of code/NVMSIM/bit_map.c beside a count of the digits.
use linux_drivers_study.Prelude.{
  ℕ, zero, suc, ◌+◌, ◌*◌, ◌/◌, ◌%◌, ◌^◌, ◌<◌, ◌≡◌, arith, refl, ap, sym, ◌∙◌, ltb, Bool-cases, inl,
  inr,
}
use linux_drivers_study.BitMap.{add_int, bit_count, shift_right}
use linux_drivers_study.BitMap.Bitwise.{
  bits_and, bits_and-zero, bits_and_le, field2, field4, field32,
}
use linux_drivers_study.BitMap.Stages.{
  ones, ones_le, ones-more, halves16, width, mask2, mask4, sum2, sum4, sum8, sum16, after4, after8,
  after16, after16_step,
}

-- The shift fills with the sign above the highest place that the mask reads.
pow4 : ℕ → ℕ
pow4 zero = 1
pow4 (suc n) = 4 * pow4 n

pow16 : ℕ → ℕ
pow16 zero = 1
pow16 (suc n) = 16 * pow16 n

sign2 :
    (n y : ℕ)
    → bits_and (width 2 (suc n)) (y + 2 * pow4 n) (mask2 (suc n))
      ≡ bits_and (width 2 (suc n)) y (mask2 (suc n))
unfolding pow4
sign2 zero y = omega (
  arith,
  field2 0 (y + 2) 0,
  field2 0 y 0,
  bits_and-zero 0 ((y + 2) / 4),
  bits_and-zero 0 (y / 4),
)
sign2 (suc n) y =
    let raise : y + 2 * pow4 (suc n) ≡ y + 8 * pow4 n = omega arith in
    let deep : (y + 8 * pow4 n) / 4 ≡ y / 4 + 2 * pow4 n = omega arith in
    ap (λ z. bits_and (width 2 (suc (suc n))) z (mask2 (suc (suc n)))) raise
    ∙ field2 (width 2 (suc n)) (y + 8 * pow4 n) (mask2 (suc n))
    ∙ omega (arith, ap (λ z. bits_and (width 2 (suc n)) z (mask2 (suc n))) deep, sign2 n (y / 4))
    ∙ sym (field2 (width 2 (suc n)) y (mask2 (suc n)))

sign4 :
    (n y : ℕ)
    → bits_and (width 4 (suc n)) (y + 12 * pow16 n) (mask4 (suc n))
      ≡ bits_and (width 4 (suc n)) y (mask4 (suc n))
unfolding pow16
sign4 zero y = omega (
  arith,
  field4 0 (y + 12) 0,
  field4 0 y 0,
  bits_and-zero 0 ((y + 12) / 16),
  bits_and-zero 0 (y / 16),
)
sign4 (suc n) y =
    let raise : y + 12 * pow16 (suc n) ≡ y + 192 * pow16 n = omega arith in
    let deep : (y + 192 * pow16 n) / 16 ≡ y / 16 + 12 * pow16 n = omega arith in
    ap (λ z. bits_and (width 4 (suc (suc n))) z (mask4 (suc (suc n)))) raise
    ∙ field4 (width 4 (suc n)) (y + 192 * pow16 n) (mask4 (suc n))
    ∙ omega (arith, ap (λ z. bits_and (width 4 (suc n)) z (mask4 (suc n))) deep, sign4 n (y / 16))
    ∙ sym (field4 (width 4 (suc n)) y (mask4 (suc n)))

-- In the first two sums the shifted word may be negative; the masks do not read the copies of its sign.
shifted1 :
    (x : ℕ) → x < 2 ^ 32 → bits_and 32 (shift_right x 1) 0x55555555 ≡ bits_and 32 (x / 2) 0x55555555
unfolding shift_right pow4
shifted1 x small = elim (Bool-cases (ltb x (2 ^ 31))) [
  | inl e ↦ rw e refl
  | inr e ↦ rw e (sign2 15 (x / 2))
]

shifted2 : (x : ℕ) → bits_and 32 (shift_right x 2) 0x33333333 ≡ bits_and 32 (x / 4) 0x33333333
unfolding shift_right pow16
shifted2 x = elim (Bool-cases (ltb x (2 ^ 31))) [
  | inl e ↦ rw e refl
  | inr e ↦ rw e (sign4 7 (x / 4))
]

shifted_positive : (x k : ℕ) → x < 2 ^ 31 → shift_right x k ≡ x / 2 ^ k
unfolding shift_right
shifted_positive x k small = ground arith

-- Sums of two masked words do not reach the next power of two.
fits :
    (x y m : ℕ)
    → m < 2 ^ 31
    → add_int (bits_and 32 x m) (bits_and 32 y m) ≡ bits_and 32 x m + bits_and 32 y m
fits x y m small = omega (arith, bits_and_le 32 x m, bits_and_le 32 y m)

-- Each line of the function is a sum over fields.
line1 :
    (x : ℕ)
    → x < 2 ^ 32
    → add_int (bits_and 32 x 0x55555555) (bits_and 32 (shift_right x 1) 0x55555555) ≡ sum2 16 x
line1 x small =
    ap (λ y. add_int (bits_and 32 x 0x55555555) y) (shifted1 x small)
    ∙ fits x (x / 2) 0x55555555 (omega arith)

line2 :
    (c : ℕ)
    → add_int (bits_and 32 c 0x33333333) (bits_and 32 (shift_right c 2) 0x33333333) ≡ sum4 8 c
line2 c =
    ap (λ y. add_int (bits_and 32 c 0x33333333) y) (shifted2 c)
    ∙ fits c (c / 4) 0x33333333 (omega arith)

line3 :
    (c : ℕ)
    → c < 2 ^ 31
    → add_int (bits_and 32 c 0x0F0F0F0F) (bits_and 32 (shift_right c 4) 0x0F0F0F0F) ≡ sum8 4 c
line3 c small =
    ap (λ y. add_int (bits_and 32 c 0x0F0F0F0F) (bits_and 32 y 0x0F0F0F0F))
      (shifted_positive c 4 small)
    ∙ fits c (c / 16) 0x0F0F0F0F (omega arith)

line4 :
    (c : ℕ)
    → c < 2 ^ 31
    → add_int (bits_and 32 c 0x00FF00FF) (bits_and 32 (shift_right c 8) 0x00FF00FF) ≡ sum16 2 c
line4 c small =
    ap (λ y. add_int (bits_and 32 c 0x00FF00FF) (bits_and 32 y 0x00FF00FF))
      (shifted_positive c 8 small)
    ∙ fits c (c / 256) 0x00FF00FF (omega arith)

line5 :
    (c : ℕ)
    → c < 2 ^ 31
    → add_int (bits_and 32 c 0x0000FFFF) (bits_and 32 (shift_right c 16) 0x0000FFFF)
      ≡ c % 65536 + c / 65536
line5 c small =
    ap (λ y. add_int (bits_and 32 c 0x0000FFFF) (bits_and 32 y 0x0000FFFF))
      (shifted_positive c 16 small)
    ∙ fits c (c / 65536) 0x0000FFFF (omega arith)
    ∙ omega (arith, field32 c, field32 (c / 65536))

-- What the last two fields hold.
after16_two : (x : ℕ) → after16 2 x ≡ 65536 * ones 16 (x / 65536) + ones 16 x
after16_two x = omega (
  arith,
  after16_step 1 x,
  after16_step 0 (x / 65536),
  bits_and-zero 0 (after8 0 (x / 65536 / 65536)),
  bits_and-zero 0 (after8 0 (x / 65536 / 65536) / 256),
)

-- For every 32-bit word, negative ones included, bitCount is the number of ones among its 32 digits.
pub bit_count-eq-ones : (x : ℕ) → x < 2 ^ 32 → bit_count x ≡ ones 32 x
unfolding bit_count
bit_count-eq-ones x small =
    let c2 = after4 8 x in
    let c3 = after8 4 x in
    let c4 = after16 2 x in
    let c2_small : c2 < 2 ^ 31 =
      omega
        (arith, bits_and_le 32 (sum2 16 x) 0x33333333, bits_and_le 32 (sum2 16 x / 4) 0x33333333) in
    let c3_small : c3 < 2 ^ 31 =
      omega (arith, bits_and_le 32 c2 0x0F0F0F0F, bits_and_le 32 (c2 / 16) 0x0F0F0F0F) in
    let c4_small : c4 < 2 ^ 31 =
      omega (arith, bits_and_le 32 c3 0x00FF00FF, bits_and_le 32 (c3 / 256) 0x00FF00FF) in
    let all : ones 32 x ≡ ones 16 x + ones 16 (x / 65536) =
      ones-more 16 16 x ∙ ap (λ y. ones 16 x + ones 16 y) (halves16 x) in
    rw (line1 x small, line2 (sum2 16 x), line3 c2 c2_small, line4 c3 c3_small)
      (line5 c4 c4_small ∙ omega (arith, after16_two x, all, ones_le 16 x, ones_le 16 (x / 65536)))
