-- ===== src/Scull/Pipe/Queue.antt =====
-- The locked sections of code/examples/scull/pipe.c against a queue of bytes.
use linux_drivers_study.Prelude.{
  ℕ, ◌+◌, ◌-◌, ◌%◌, ◌<◌, ◌^◌, ◌≡◌, ◌≢◌, arith, length, ltb, if◌then◌else◌, take, ◌++◌, min, some,
  length-append, length-take,
}
use linux_drivers_study.Prelude.Bytes.{Bytes, slice, length-slice}
use native.Mathlib.Nat.{mod-eq_of_lt, mod-eq-sub-mod}
use native.Mathlib.Decide.{dec_lt, ℕ_discrete}
use linux_drivers_study.Prelude.Int.{pos}
use linux_drivers_study.Scull.Pipe.{Pipe, memory, spacefree}

-- One byte of the buffer stays free, so that a full buffer is not taken for an empty one.
pub record IsValid (p : Pipe) : Type 0 where
  pub allocated : p.buffer ≡ some (memory p)
  pub whole : length (memory p) ≡ p.buffersize
  pub is_int : p.buffersize < 2 ^ 31
  pub rp_inside : p.rp < p.buffersize
  pub wp_inside : p.wp < p.buffersize

-- The queue that the pipe holds, oldest byte first.
abbrev pub contents : Pipe → Bytes
contents p =
    if ltb p.wp p.rp
    then slice (memory p) p.rp (p.buffersize - p.rp) ++ take p.wp (memory p)
    else slice (memory p) p.rp (p.wp - p.rp)

-- How many bytes lie in one piece from `rp` on, and how many can be put in one piece from `wp` on.
abbrev pub readable : Pipe → ℕ
readable p = if ltb p.rp p.wp then p.wp - p.rp else p.buffersize - p.rp

abbrev pub writable : Pipe → ℕ
writable p =
    min (p.buffersize - 1 - length (contents p))
      (if ltb p.wp p.rp then p.rp - p.wp - 1 else p.buffersize - p.wp)

pub length-contents :
    (p : Pipe)
    → IsValid p
    → length (contents p) ≡ (if ltb p.wp p.rp then p.buffersize - p.rp + p.wp else p.wp - p.rp)
length-contents p v = ground (
  arith,
  v,
  length-append (slice (memory p) p.rp (p.buffersize - p.rp)) (take p.wp (memory p)),
  length-slice (memory p) p.rp (p.buffersize - p.rp),
  length-take p.wp (memory p),
  length-slice (memory p) p.rp (p.wp - p.rp),
)

-- The distance from `wp` on to `rp`, going round.
ahead :
    (rp wp size : ℕ)
    → rp < size
    → wp < size
    → rp ≢ wp
    → (rp + size - wp) % size ≡ (if ltb wp rp then rp - wp else rp + size - wp)
ahead rp wp size h k ne = elim (dec_lt wp rp) [
  | yes below ↦ ground (
    arith,
    below,
    mod-eq-sub-mod {n = rp + size - wp} {m = size} (omega arith),
    mod-eq_of_lt {n = rp + size - wp - size} {m = size} (omega arith),
  )
  | no above ↦ ground (arith, above, mod-eq_of_lt {n = rp + size - wp} {m = size} (omega arith))
]

pub spacefree_lem :
    (p : Pipe) → IsValid p → spacefree p ≡ pos (p.buffersize - 1 - length (contents p))
unfolding spacefree
spacefree_lem p v = elim (ℕ_discrete p.rp p.wp) [
  | yes e ↦ ground (arith, v, e, length-contents p v)
  | no ne ↦ ground (arith, v, ne, length-contents p v, ahead p.rp p.wp p.buffersize)
]
