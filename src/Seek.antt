-- ===== src/Seek.antt =====
-- The `llseek` handler, written alike in code/ch6/globalmem.c, code/ch6/multi_globalmem.c,
-- code/ch7/globalmem.c, code/ch6/tdlcd.c and code/tdlcd/tdlcd_fifo.c, on the file position alone.
use linux_drivers_study.Prelude.{
  ℕ, ◌+◌, ◌*◌, ◌≤◌, ◌<◌, ◌^◌, ◌≡◌, ◌⊎◌, ◌||◌, ltb, ◌==◌, if◌then◌else◌, arith,
}
use linux_drivers_study.Prelude.Int.{
  ℤ, pos, negsuc, is_negative, exceeds, IsInt64, to_u32, add_s64, ◌+ℤ◌,
}
use linux_drivers_study.Kernel.Errno.{einval}

-- A new position, and the result of the call.
pub record Seek : Type 0 where
  pub f_pos : ℤ
  pub ret : ℤ

-- `filp->f_pos` before the call, the offset and the origin.
unfoldable pub llseek : ℕ → ℤ → ℤ → ℕ → Seek
llseek size f_pos offset orig =
    let rejected : Seek = record { f_pos = f_pos; ret = einval } in
    let moved : ℤ → Seek = λ p. record { f_pos = p; ret = p } in
    let target = add_s64 f_pos offset in
    if orig == 0
    then (if is_negative offset
        then rejected
        else if ltb size (to_u32 offset)
        then rejected
        else moved (pos (to_u32 offset)))
    else if orig == 1
    then (if exceeds target size
        then rejected
        else if is_negative target
        then rejected
        else moved target)
    else rejected

-- A position inside a device of `size` bytes, or just past its end.
abbrev pub InDevice : ℕ → ℤ → Type 0
InDevice size (pos q) = q ≤ size
InDevice size (negsuc q) = ⊥

-- Whatever offset and origin are asked for, a position inside the device stays inside it, and the
-- call returns either the new position or -EINVAL.
pub llseek-InDevice :
    (size : ℕ) (f_pos offset : ℤ) (orig : ℕ)
    → InDevice size f_pos
    → InDevice size (llseek size f_pos offset orig).f_pos
      × (((llseek size f_pos offset orig).ret ≡ (llseek size f_pos offset orig).f_pos)
          ⊎ (llseek size f_pos offset orig ≡ record { f_pos = f_pos; ret = einval }))
unfolding llseek
llseek-InDevice size (pos q) offset orig h = ground arith
llseek-InDevice size (negsuc q) offset orig h = absurd h

-- SEEK_CUR from a position in the device, for every signed 64-bit offset: the exact sum is the new
-- position if it lies in the device, and otherwise -EINVAL is returned and nothing moves, also
-- where the addition of 64-bit values wraps.
pub llseek_current :
    (size p : ℕ) (offset : ℤ)
    → size < 2 ^ 31
    → p ≤ size
    → IsInt64 offset
    → llseek size (pos p) offset 1 ≡ (
        if exceeds (pos p +ℤ offset) size || is_negative (pos p +ℤ offset)
        then record { f_pos = pos p; ret = einval }
        else record { f_pos = pos p +ℤ offset; ret = pos p +ℤ offset })
unfolding llseek ◌+ℤ◌ add_s64
llseek_current size p (pos n) small h b = ground arith
llseek_current size p (negsuc n) small h b = ground arith

-- SEEK_SET looks at the low 32 bits of the offset alone: an offset past 4 GB is accepted, and the
-- position is its remainder.
pub llseek_set_cut :
    (size n k : ℕ) (f_pos : ℤ)
    → size < 2 ^ 31
    → n ≤ size
    → 2 ^ 32 * k + n < 2 ^ 63
    → llseek size f_pos (pos (2 ^ 32 * k + n)) 0 ≡ record { f_pos = pos n; ret = pos n }
unfolding llseek
llseek_set_cut size n k f_pos small h b = ground arith
