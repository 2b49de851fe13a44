-- ===== src/Nvm/Copy.antt =====
-- `memory_copy` of code/NVMSIM/mem.c, and the two functions that copy between a page and the device.
use linux_drivers_study.Prelude.{
  ℕ, ◌+◌, ◌*◌, ◌/◌, ◌%◌, ◌^◌, ◌≤◌, ◌≡◌, if◌then◌else◌, Bool, true, false, Option, none, some, arith,
  length,
}
use linux_drivers_study.Prelude.Bytes.{
  Bytes, load, store, slice, splice, load_inside, store_inside, length-slice,
}

-- `rep movsq` moves size >> 3 words of 8 bytes where __LP64__ is defined, and `rep movsl` size >> 2
-- words of 4 bytes where it is not.
unfoldable pub copied_bytes : Bool → ℕ → ℕ
copied_bytes lp64 size = if lp64 then size / 2 ^ 3 * 8 else size / 2 ^ 2 * 4

-- The destination array after a copy of `size` bytes from `src` at `from` to `dest` at `to`; `none` is an
-- access outside one of them.
unfoldable pub memory_copy : Bool → Bytes → ℕ → Bytes → ℕ → ℕ → Option Bytes
unfolding copied_bytes
memory_copy lp64 dest to src from size = elim (load src from (copied_bytes lp64 size)) [
  | none ↦ none
  | some bs ↦ store dest to bs
]

-- A copy inside both arrays moves the bytes up to the last whole word, of 8 bytes or of 4 without __LP64__,
-- and leaves the rest of the size, less than a word, as it was.
pub memory_copy_lem :
    (lp64 : Bool) (dest : Bytes) (to : ℕ) (src : Bytes) (from size : ℕ)
    → from + size ≤ length src
    → to + size ≤ length dest
    → let n = copied_bytes lp64 size in
      (memory_copy lp64 dest to src from size ≡ some (splice dest to (slice src from n)))
      × (n + size % (if lp64 then 8 else 4) ≡ size)
unfolding memory_copy
memory_copy_lem true dest to src from size hs hd =
    let n = size / 2 ^ 3 * 8 in
    (
      ground (
        arith,
        load_inside src from n,
        length-slice src from n,
        store_inside dest to (slice src from n),
      ),
      omega arith,
    )
memory_copy_lem false dest to src from size hs hd =
    let n = size / 2 ^ 2 * 4 in
    (
      ground (
        arith,
        load_inside src from n,
        length-slice src from n,
        store_inside dest to (slice src from n),
      ),
      omega arith,
    )
