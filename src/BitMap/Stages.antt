-- ===== src/BitMap/Stages.antt =====
-- The five sums of bitCount in code/NVMSIM/bit_map.c, on words of any number of fields.
use linux_drivers_study.Prelude.{ℕ, zero, suc, ◌+◌, ◌*◌, ◌/◌, ◌%◌, ◌≤◌, ◌≡◌, arith, ap, ◌∙◌}
use linux_drivers_study.BitMap.Bitwise.{bits_and, more, field2, field4, field8, field16}

-- The ones among the lowest `n` digits.
abbrev pub ones : ℕ → ℕ → ℕ
ones zero x = 0
ones (suc n) x = x % 2 + ones n (x / 2)

pub ones_le : (n x : ℕ) → ones n x ≤ n
ones_le zero x = omega arith
ones_le (suc n) x = omega (arith, ones_le n (x / 2))

-- `x` halved `n` times.
abbrev pub halves : ℕ → ℕ → ℕ
halves zero x = x
halves (suc n) x = halves n (x / 2)

pub ones-more : (n k x : ℕ) → ones (more n k) x ≡ ones n x + ones k (halves n x)
ones-more zero k x = omega arith
ones-more (suc n) k x = omega (arith, ones-more n k (x / 2))

halves4 : (x : ℕ) → halves 4 x ≡ x / 16
halves4 x = omega arith

halves8 : (x : ℕ) → halves 8 x ≡ x / 256
halves8 x = halves4 (x / 2 / 2 / 2 / 2) ∙ ap (λ y. y / 16) (halves4 x) ∙ omega arith

pub halves16 : (x : ℕ) → halves 16 x ≡ x / 65536
halves16 x = halves8 (halves 8 x) ∙ ap (λ y. y / 256) (halves8 x) ∙ omega arith

-- `n` fields of `k` digits, and the masks over fields of 2, 4, 8 and 16 digits.
abbrev pub width : ℕ → ℕ → ℕ
width k zero = 0
width k (suc n) = more k (width k n)

abbrev pub mask2 : ℕ → ℕ
mask2 zero = 0
mask2 (suc n) = 4 * mask2 n + 1

abbrev pub mask4 : ℕ → ℕ
mask4 zero = 0
mask4 (suc n) = 16 * mask4 n + 3

abbrev pub mask8 : ℕ → ℕ
mask8 zero = 0
mask8 (suc n) = 256 * mask8 n + 15

abbrev pub mask16 : ℕ → ℕ
mask16 zero = 0
mask16 (suc n) = 65536 * mask16 n + 255

abbrev pub sum2 : ℕ → ℕ → ℕ
sum2 n x = bits_and (width 2 n) x (mask2 n) + bits_and (width 2 n) (x / 2) (mask2 n)

abbrev pub sum4 : ℕ → ℕ → ℕ
sum4 n x = bits_and (width 4 n) x (mask4 n) + bits_and (width 4 n) (x / 4) (mask4 n)

abbrev pub sum8 : ℕ → ℕ → ℕ
sum8 n x = bits_and (width 8 n) x (mask8 n) + bits_and (width 8 n) (x / 16) (mask8 n)

abbrev pub sum16 : ℕ → ℕ → ℕ
sum16 n x = bits_and (width 16 n) x (mask16 n) + bits_and (width 16 n) (x / 256) (mask16 n)

-- Each sum field by field.
sum2_step : (n x : ℕ) → sum2 (suc n) x ≡ 4 * sum2 n (x / 4) + (x % 2 + x / 2 % 2)
sum2_step n x =
    let swap : x / 2 / 4 ≡ x / 4 / 2 = omega arith in
    omega (
      arith,
      field2 (width 2 n) x (mask2 n),
      field2 (width 2 n) (x / 2) (mask2 n),
      ap (λ y. bits_and (width 2 n) y (mask2 n)) swap,
    )

sum4_step : (n x : ℕ) → sum4 (suc n) x ≡ 16 * sum4 n (x / 16) + (x % 4 + x / 4 % 4)
sum4_step n x =
    let swap : x / 4 / 16 ≡ x / 16 / 4 = omega arith in
    omega (
      arith,
      field4 (width 4 n) x (mask4 n),
      field4 (width 4 n) (x / 4) (mask4 n),
      ap (λ y. bits_and (width 4 n) y (mask4 n)) swap,
    )

sum8_step : (n x : ℕ) → sum8 (suc n) x ≡ 256 * sum8 n (x / 256) + (x % 16 + x / 16 % 16)
sum8_step n x =
    let swap : x / 16 / 256 ≡ x / 256 / 16 = omega arith in
    omega (
      arith,
      field8 (width 8 n) x (mask8 n),
      field8 (width 8 n) (x / 16) (mask8 n),
      ap (λ y. bits_and (width 8 n) y (mask8 n)) swap,
    )

sum16_step : (n x : ℕ) → sum16 (suc n) x ≡ 65536 * sum16 n (x / 65536) + (x % 256 + x / 256 % 256)
sum16_step n x =
    let swap : x / 256 / 65536 ≡ x / 65536 / 256 = omega arith in
    omega (
      arith,
      field16 (width 16 n) x (mask16 n),
      field16 (width 16 n) (x / 256) (mask16 n),
      ap (λ y. bits_and (width 16 n) y (mask16 n)) swap,
    )

abbrev pub double : ℕ → ℕ
double zero = 0
double (suc n) = suc (suc (double n))

-- The word after two, three and four sums.
abbrev pub after4 : ℕ → ℕ → ℕ
after4 n x = sum4 n (sum2 (double n) x)

abbrev pub after8 : ℕ → ℕ → ℕ
after8 n x = sum8 n (after4 (double n) x)

abbrev pub after16 : ℕ → ℕ → ℕ
after16 n x = sum16 n (after8 (double n) x)

-- Their fields hold how many ones the fields of `x` have.
pub after4_step : (n x : ℕ) → after4 (suc n) x ≡ 16 * after4 n (x / 16) + ones 4 x
after4_step n x =
    let low = sum2 (double n) in
    let c = sum2 (double (suc n)) x in
    let deep : x / 4 / 4 ≡ x / 16 = omega arith in
    let e : c ≡ 16 * low (x / 16) + (4 * (x / 4 % 2 + x / 4 / 2 % 2) + (x % 2 + x / 2 % 2)) =
      omega (arith, sum2_step (suc (double n)) x, sum2_step (double n) (x / 4), ap low deep) in
    let rest : c / 16 ≡ low (x / 16) = omega (arith, e) in
    omega (arith, e, sum4_step n c, ap (sum4 n) rest)

pub after8_step : (n x : ℕ) → after8 (suc n) x ≡ 256 * after8 n (x / 256) + ones 8 x
after8_step n x =
    let low = after4 (double n) in
    let c = after4 (double (suc n)) x in
    let deep : x / 16 / 16 ≡ x / 256 = omega arith in
    let e : c ≡ 256 * low (x / 256) + (16 * ones 4 (x / 16) + ones 4 x) =
      omega (arith, after4_step (suc (double n)) x, after4_step (double n) (x / 16), ap low deep) in
    let low_le = ones_le 4 x in
    let high_le = ones_le 4 (x / 16) in
    let rest : c / 256 ≡ low (x / 256) = omega (arith, e, low_le, high_le) in
    let both : ones 8 x ≡ ones 4 x + ones 4 (x / 16) =
      ones-more 4 4 x ∙ ap (λ y. ones 4 x + ones 4 y) (halves4 x) in
    omega (arith, e, sum8_step n c, ap (sum8 n) rest, low_le, high_le, both)

pub after16_step : (n x : ℕ) → after16 (suc n) x ≡ 65536 * after16 n (x / 65536) + ones 16 x
after16_step n x =
    let low = after8 (double n) in
    let c = after8 (double (suc n)) x in
    let deep : x / 256 / 256 ≡ x / 65536 = omega arith in
    let e : c ≡ 65536 * low (x / 65536) + (256 * ones 8 (x / 256) + ones 8 x) =
      omega
        (arith, after8_step (suc (double n)) x, after8_step (double n) (x / 256), ap low deep) in
    let low_le = ones_le 8 x in
    let high_le = ones_le 8 (x / 256) in
    let rest : c / 65536 ≡ low (x / 65536) = omega (arith, e, low_le, high_le) in
    let both : ones 16 x ≡ ones 8 x + ones 8 (x / 256) =
      ones-more 8 8 x ∙ ap (λ y. ones 8 x + ones 8 y) (halves8 x) in
    omega (arith, e, sum16_step n c, ap (sum16 n) rest, low_le, high_le, both)
