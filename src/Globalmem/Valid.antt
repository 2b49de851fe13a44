-- ===== src/Globalmem/Valid.antt =====
-- The cut of the count and the arithmetic of `*ppos` in code/ch6/globalmem.c.
use linux_drivers_study.Prelude.{ℕ, ◌+◌, ◌-◌, ◌%◌, ◌^◌, ◌≤◌, ◌≡◌, arith, min}
use linux_drivers_study.Prelude.Int.{pos, to_u64, add_s64}
use linux_drivers_study.Globalmem.{globalmem_size, clip}

-- The bytes that a call of `size` bytes at `p` moves.
abbrev pub moved : ℕ → ℕ → ℕ
moved p size = min (size % 2 ^ 32) (globalmem_size - p)

pub clip_lem : (p size : ℕ) → clip p size ≡ moved p size
unfolding clip
clip_lem p size = ground arith

pub to_u64-pos : (p : ℕ) → p ≤ globalmem_size → to_u64 (pos p) ≡ p
to_u64-pos p h = omega arith

pub add_s64-pos : (p n : ℕ) → p + n ≤ globalmem_size → add_s64 (pos p) (pos n) ≡ pos (p + n)
unfolding add_s64
add_s64-pos p n h = ground arith
