-- ===== src/BitMap/Bitwise.antt =====
-- Conjunction and disjunction of words one digit at a time, and under masks that end in zeros or ones, for
-- code/NVMSIM/bit_map.c.
use linux_drivers_study.Prelude.{
  ℕ, zero, suc, ◌+◌, ◌*◌, ◌/◌, ◌%◌, ◌≤◌, ◌≡◌, min, max, arith, refl, ap, ◌∙◌,
}

-- The lowest `n` digits of a & b.
unfoldable pub bits_and : ℕ → ℕ → ℕ → ℕ
bits_and zero a b = 0
bits_and (suc n) a b = bits_and n (a / 2) (b / 2) * 2 + min (a % 2) (b % 2)

-- The lowest `n` digits of a | b.
unfoldable pub bits_or : ℕ → ℕ → ℕ → ℕ
bits_or zero a b = 0
bits_or (suc n) a b = bits_or n (a / 2) (b / 2) * 2 + max (a % 2) (b % 2)

-- k + n, by recursion on `k`.
abbrev pub more : ℕ → ℕ → ℕ
more zero n = n
more (suc k) n = suc (more k n)

pub bits_and-zero : (n x : ℕ) → bits_and n x 0 ≡ 0
unfolding bits_and
bits_and-zero zero x = refl
bits_and-zero (suc n) x = omega (arith, bits_and-zero n (x / 2))

pub bits_and_le : (n a b : ℕ) → bits_and n a b ≤ b
unfolding bits_and
bits_and_le zero a b = omega arith
bits_and_le (suc n) a b = omega (arith, bits_and_le n (a / 2) (b / 2))

zeros1 : (n x m : ℕ) → bits_and (suc n) x (2 * m) ≡ 2 * bits_and n (x / 2) m
unfolding bits_and
zeros1 n x m = let half : 2 * m / 2 ≡ m = omega arith in omega (arith, ap (bits_and n (x / 2)) half)

ones1 : (n x m : ℕ) → bits_and (suc n) x (2 * m + 1) ≡ 2 * bits_and n (x / 2) m + x % 2
unfolding bits_and
ones1 n x m =
    let half : (2 * m + 1) / 2 ≡ m = omega arith in omega (arith, ap (bits_and n (x / 2)) half)

-- A mask that ends in twice as many zeros, or ones.
zeros2 : (n x m : ℕ) → bits_and (more 2 n) x (4 * m) ≡ 4 * bits_and n (x / 4) m
zeros2 n x m =
    let mask : 4 * m ≡ 2 * (2 * m) = omega arith in
    let rest : x / 2 / 2 ≡ x / 4 = omega arith in
    ap (bits_and (more 2 n) x) mask
    ∙ zeros1 (more 1 n) x (2 * m)
    ∙ ap (λ y. 2 * y) (zeros1 n (x / 2) m)
    ∙ omega (arith, ap (λ y. bits_and n y m) rest)

ones2 : (n x m : ℕ) → bits_and (more 2 n) x (4 * m + 3) ≡ 4 * bits_and n (x / 4) m + x % 4
ones2 n x m =
    let mask : 4 * m + 3 ≡ 2 * (2 * m + 1) + 1 = omega arith in
    let rest : x / 2 / 2 ≡ x / 4 = omega arith in
    ap (bits_and (more 2 n) x) mask
    ∙ ones1 (more 1 n) x (2 * m + 1)
    ∙ ap (λ y. 2 * y + x % 2) (ones1 n (x / 2) m)
    ∙ omega (arith, ap (λ y. bits_and n y m) rest)

zeros4 : (n x m : ℕ) → bits_and (more 4 n) x (16 * m) ≡ 16 * bits_and n (x / 16) m
zeros4 n x m =
    let mask : 16 * m ≡ 4 * (4 * m) = omega arith in
    let rest : x / 4 / 4 ≡ x / 16 = omega arith in
    ap (bits_and (more 4 n) x) mask
    ∙ zeros2 (more 2 n) x (4 * m)
    ∙ ap (λ y. 4 * y) (zeros2 n (x / 4) m)
    ∙ omega (arith, ap (λ y. bits_and n y m) rest)

ones4 : (n x m : ℕ) → bits_and (more 4 n) x (16 * m + 15) ≡ 16 * bits_and n (x / 16) m + x % 16
ones4 n x m =
    let mask : 16 * m + 15 ≡ 4 * (4 * m + 3) + 3 = omega arith in
    let rest : x / 4 / 4 ≡ x / 16 = omega arith in
    ap (bits_and (more 4 n) x) mask
    ∙ ones2 (more 2 n) x (4 * m + 3)
    ∙ ap (λ y. 4 * y + x % 4) (ones2 n (x / 4) m)
    ∙ omega (arith, ap (λ y. bits_and n y m) rest)

zeros8 : (n x m : ℕ) → bits_and (more 8 n) x (256 * m) ≡ 256 * bits_and n (x / 256) m
zeros8 n x m =
    let mask : 256 * m ≡ 16 * (16 * m) = omega arith in
    let rest : x / 16 / 16 ≡ x / 256 = omega arith in
    ap (bits_and (more 8 n) x) mask
    ∙ zeros4 (more 4 n) x (16 * m)
    ∙ ap (λ y. 16 * y) (zeros4 n (x / 16) m)
    ∙ omega (arith, ap (λ y. bits_and n y m) rest)

ones8 : (n x m : ℕ) → bits_and (more 8 n) x (256 * m + 255) ≡ 256 * bits_and n (x / 256) m + x % 256
ones8 n x m =
    let mask : 256 * m + 255 ≡ 16 * (16 * m + 15) + 15 = omega arith in
    let rest : x / 16 / 16 ≡ x / 256 = omega arith in
    ap (bits_and (more 8 n) x) mask
    ∙ ones4 (more 4 n) x (16 * m + 15)
    ∙ ap (λ y. 16 * y + x % 16) (ones4 n (x / 16) m)
    ∙ omega (arith, ap (λ y. bits_and n y m) rest)

-- Fields of 2, 4, 8, 16 and 32 digits, of which the mask takes the lower half.
pub field2 : (n x m : ℕ) → bits_and (more 2 n) x (4 * m + 1) ≡ 4 * bits_and n (x / 4) m + x % 2
field2 n x m =
    let mask : 4 * m + 1 ≡ 2 * (2 * m) + 1 = omega arith in
    let rest : x / 2 / 2 ≡ x / 4 = omega arith in
    ap (bits_and (more 2 n) x) mask
    ∙ ones1 (more 1 n) x (2 * m)
    ∙ ap (λ y. 2 * y + x % 2) (zeros1 n (x / 2) m)
    ∙ omega (arith, ap (λ y. bits_and n y m) rest)

pub field4 : (n x m : ℕ) → bits_and (more 4 n) x (16 * m + 3) ≡ 16 * bits_and n (x / 16) m + x % 4
field4 n x m =
    let mask : 16 * m + 3 ≡ 4 * (4 * m) + 3 = omega arith in
    let rest : x / 4 / 4 ≡ x / 16 = omega arith in
    ap (bits_and (more 4 n) x) mask
    ∙ ones2 (more 2 n) x (4 * m)
    ∙ ap (λ y. 4 * y + x % 4) (zeros2 n (x / 4) m)
    ∙ omega (arith, ap (λ y. bits_and n y m) rest)

pub field8 :
    (n x m : ℕ) → bits_and (more 8 n) x (256 * m + 15) ≡ 256 * bits_and n (x / 256) m + x % 16
field8 n x m =
    let mask : 256 * m + 15 ≡ 16 * (16 * m) + 15 = omega arith in
    let rest : x / 16 / 16 ≡ x / 256 = omega arith in
    ap (bits_and (more 8 n) x) mask
    ∙ ones4 (more 4 n) x (16 * m)
    ∙ ap (λ y. 16 * y + x % 16) (zeros4 n (x / 16) m)
    ∙ omega (arith, ap (λ y. bits_and n y m) rest)

pub field16 :
    (n x m : ℕ)
    → bits_and (more 16 n) x (65536 * m + 255) ≡ 65536 * bits_and n (x / 65536) m + x % 256
field16 n x m =
    let mask : 65536 * m + 255 ≡ 256 * (256 * m) + 255 = omega arith in
    let rest : x / 256 / 256 ≡ x / 65536 = omega arith in
    ap (bits_and (more 16 n) x) mask
    ∙ ones8 (more 8 n) x (256 * m)
    ∙ ap (λ y. 256 * y + x % 256) (zeros8 n (x / 256) m)
    ∙ omega (arith, ap (λ y. bits_and n y m) rest)

pub field32 : (x : ℕ) → bits_and 32 x 65535 ≡ x % 65536
field32 x =
    ones8 24 x 255
    ∙ ap (λ y. 256 * y + x % 256) (ones8 16 (x / 256) 0)
    ∙ omega (arith, bits_and-zero 16 (x / 256 / 256))
