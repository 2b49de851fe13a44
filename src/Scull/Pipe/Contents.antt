-- ===== src/Scull/Pipe/Contents.antt =====
-- The bytes that the pipe of code/examples/scull/pipe.c holds after its pointers have moved.
use linux_drivers_study.Prelude.{
  ℕ, ◌+◌, ◌-◌, ◌≤◌, ◌≡◌, ◌≢◌, arith, length, take, drop, ◌++◌, inl, inr, some, drop-append,
  drop_all, take-append,
}
use linux_drivers_study.Prelude.Bytes.{
  Bytes, slice, splice, length-slice, length-splice, slice-splice_end, slice-splice_other,
  take-splice_end, take-splice_below, drop-slice, take-slice,
}
use mathlib.Core.List.{append-nil, append_assoc}
use native.Mathlib.Decide.{dec_lt}
use linux_drivers_study.Scull.Pipe.{Pipe, memory, wrapped}
use linux_drivers_study.Scull.Pipe.Queue.{IsValid, contents, readable, writable, length-contents}

-- What is left after `n` bytes are read, and with bytes stored behind the contents.
abbrev pub taken : ℕ → Pipe → Pipe
taken n p = record p { rp = wrapped p (p.rp + n) }

abbrev pub landed : Bytes → Pipe → Pipe
landed bs p = record p { buffer = some (splice (memory p) p.wp bs) }

abbrev pub stored : Bytes → ℕ → Pipe → Pipe
stored bs n p = record (landed bs p) { wp = wrapped p (p.wp + n) }

pub taken-IsValid : (n : ℕ) (p : Pipe) → IsValid p → n ≤ readable p → IsValid (taken n p)
taken-IsValid n p v h = ground (arith, v)

pub landed-IsValid : (bs : Bytes) (p : Pipe) → IsValid p → IsValid (landed bs p)
landed-IsValid bs p v = ground (arith, v, length-splice (memory p) p.wp bs)

pub stored-IsValid :
    (bs : Bytes) (n : ℕ) (p : Pipe) → IsValid p → n ≤ writable p → IsValid (stored bs n p)
stored-IsValid bs n p v h = ground (arith, v, length-splice (memory p) p.wp bs)

pub contents-taken :
    (n : ℕ) (p : Pipe)
    → IsValid p
    → p.rp ≢ p.wp
    → n ≤ readable p
    → contents (taken n p) ≡ drop n (contents p)
contents-taken n p v ne h =
    let m = memory p in
    ground (
      arith,
      v,
      drop-slice m p.rp n (p.wp - p.rp),
      drop-slice m p.rp n (p.buffersize - p.rp),
      drop-append n (slice m p.rp (p.buffersize - p.rp)) (take p.wp m),
      length-slice m p.rp (p.buffersize - p.rp),
      drop_all n (slice m p.rp (p.buffersize - p.rp)),
    )

pub contents-landed :
    (bs : Bytes) (p : Pipe)
    → IsValid p
    → length bs ≤ writable p
    → contents (landed bs p) ≡ contents p
contents-landed bs p v h =
    let m = memory p in
    elim (dec_lt p.wp p.rp) [
      | yes below ↦ ground (
        arith,
        v,
        below,
        slice-splice_other m p.wp p.rp (p.buffersize - p.rp) bs (inr (ground (arith, h, below))),
        take-splice_below m p.wp p.wp bs,
      )
      | no above ↦
          ground
            (arith, v, above, slice-splice_other m p.wp p.rp (p.wp - p.rp) bs (inl (omega arith)))
    ]

pub contents-stored :
    (bs : Bytes) (p : Pipe)
    → IsValid p
    → length bs ≤ writable p
    → contents (stored bs (length bs) p) ≡ contents p ++ bs
contents-stored bs p v h =
    let m = memory p in
    elim (dec_lt p.wp p.rp) [
      | yes below ↦ ground (
        arith,
        v,
        below,
        slice-splice_other m p.wp p.rp (p.buffersize - p.rp) bs (inr (ground (arith, h, below))),
        take-splice_end m p.wp bs,
        append_assoc (slice m p.rp (p.buffersize - p.rp)) (take p.wp m) bs,
      )
      | no above ↦ ground (
        arith,
        v,
        above,
        length-contents p v,
        slice-splice_end m p.wp p.rp bs,
        append-nil (slice (splice m p.wp bs) p.rp (p.buffersize - p.rp)),
      )
    ]

-- The first `n` bytes that lie in one piece are the first of the queue.
pub readable_prefix :
    (n : ℕ) (p : Pipe)
    → IsValid p
    → p.rp ≢ p.wp
    → n ≤ readable p
    → slice (memory p) p.rp n ≡ take n (contents p)
readable_prefix n p v ne h =
    let m = memory p in
    ground (
      arith,
      v,
      take-slice m p.rp n (p.wp - p.rp),
      take-slice m p.rp n (p.buffersize - p.rp),
      take-append n (slice m p.rp (p.buffersize - p.rp)) (take p.wp m),
      length-slice m p.rp (p.buffersize - p.rp),
    )
