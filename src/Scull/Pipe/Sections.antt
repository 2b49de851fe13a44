-- ===== src/Scull/Pipe/Sections.antt =====
-- What the locked sections of code/examples/scull/pipe.c do to the queue that the pipe holds.
use linux_drivers_study.Prelude.{
  ℕ, ◌+◌, ◌-◌, ◌≤◌, ◌<◌, ◌≡◌, ◌≢◌, arith, length, ◌==◌, if◌then◌else◌, ◌∙◌, ap, Bool, true, false,
  take, drop, ◌++◌, min, inl, inr, ◌⊎◌, Bool-cases, length-take,
}
use linux_drivers_study.Prelude.Bytes.{Bytes, slice, length-slice, load_inside}
use native.Mathlib.Decide.{ℕ_discrete}
use linux_drivers_study.Prelude.Int.{pos}
use linux_drivers_study.Kernel.Errno.{efault, eagain}
use linux_drivers_study.Kernel.Uaccess.{Uaccess, IsLawful}
use linux_drivers_study.Fifo.{quiet}
use linux_drivers_study.Scull.Pipe.{
  Pipe, memory, spacefree, is_zero, Section, fin, sleep, read_ready, read_section, write_ready,
  write_section,
}
use linux_drivers_study.Scull.Pipe.Queue.{
  IsValid, contents, readable, writable, length-contents, spacefree_lem,
}
use linux_drivers_study.Scull.Pipe.Contents.{
  taken, landed, stored, taken-IsValid, landed-IsValid, stored-IsValid, contents-taken,
  contents-landed, contents-stored, readable_prefix,
}

module _ (U : Uaccess) (nonblock : Bool) (buf count : ℕ) (p : Pipe) (user : U.User)
    (v : IsValid p) where
  pub read_ready_lem :
      p.rp ≢ p.wp
      → let n = min count (readable p) in
        let copied = U.copy_to_user user buf (take n (contents p)) in
        read_ready U nonblock buf count p user ≡ (
          if copied.0 == 0
          then fin (pos n) (taken n p) copied.1 (record quiet { writers = true })
          else fin efault p copied.1 quiet)
  unfolding read_ready
  read_ready_lem ne =
      let n = min count (readable p) in
      ground (arith, v, load_inside (memory p) p.rp n, readable_prefix n p v ne)

  pub write_ready_lem :
      let n = min count (writable p) in
      let copied = U.copy_from_user user buf (slice (memory p) p.wp n) in
      write_ready U nonblock buf count p user ≡ (
        if copied.0 == 0
        then fin
            (pos n)
            (stored copied.1 n p)
            user
            (record { readers = true; writers = false; sigio = p.async_queue })
        else fin efault (landed copied.1 p) user quiet)
  unfolding write_ready
  write_ready_lem =
      let n = min count (writable p) in
      ground (arith, v, spacefree_lem p v, load_inside (memory p) p.wp n)

-- The pipe is empty, and full, exactly when the code's tests say so.
pub is_empty : (p : Pipe) → IsValid p → (p.rp == p.wp) ≡ (length (contents p) == 0)
is_empty p v = ground (arith, v, length-contents p v)

pub is_full :
    (p : Pipe) → IsValid p → is_zero (spacefree p) ≡ (length (contents p) == p.buffersize - 1)
is_full p v = ground (arith, v, length-contents p v, spacefree_lem p v)

module _ (U : Uaccess) (nonblock : Bool) (buf count : ℕ) (p : Pipe) (user : U.User) where
  -- How many bytes a section moves, and what its copy returns.
  abbrev pub outgoing : ℕ × U.User
  outgoing = U.copy_to_user user buf (take (min count (readable p)) (contents p))

  abbrev pub incoming : ℕ × Bytes
  incoming = U.copy_from_user user buf (slice (memory p) p.wp (min count (writable p)))

  -- A call that has nothing to do yet.
  abbrev pub waits : Section U.User
  waits = if nonblock then fin eagain p user quiet else sleep

  -- The section that `read` of the pipe runs, against the queue: an empty queue makes a non-blocking
  -- caller return -EAGAIN and any other sleep. Otherwise, unless the copy fails, the bytes that lie in
  -- one piece, at most `count` of them and at least one if `count` is not 0, go from the front of the
  -- queue to the caller's buffer, and writers are woken. After a fault the pipe is as before.
  pub read_refines :
      IsLawful U
      → IsValid p
      → let n = min count (readable p) in
        (p' : Pipe) × (user' : U.User) × (read_section U nonblock buf count p user ≡ (
          if length (contents p) == 0
          then waits
          else if outgoing.0 == 0
          then fin (pos n) p' user' (record quiet { writers = true })
          else fin efault p user' quiet))
        × ((length (contents p) ≡ 0)
            ⊎ (IsValid p'
                × (contents p' ≡ drop n (contents p))
                × (n ≤ length (contents p))
                × ((count ≡ 0) ⊎ (0 < n))
                × ((outgoing.0 ≢ 0) ⊎ (U.read_user user' buf n ≡ take n (contents p)))))
  unfolding read_section
  read_refines lawful v =
      let n = min count (readable p) in
      let bytes = take n (contents p) in
      (
        taken n p,
        outgoing.1,
        ground (arith, is_empty p v, read_ready_lem U nonblock buf count p user v),
        elim (ℕ_discrete p.rp p.wp) [
          | yes e ↦ inl (ground (arith, e, is_empty p v))
          | no ne ↦
              let fits : n ≤ length (contents p) = ground (arith, v, ne, length-contents p v) in
              let all : length bytes ≡ n = omega (arith, length-take n (contents p), fits) in
              inr (
                taken-IsValid n p v (omega arith),
                contents-taken n p v ne (omega arith),
                fits,
                ground (arith, v, ne),
                elim (Bool-cases (outgoing.0 == 0)) [
                  | inl ok ↦ inr (rw all at (lawful.to_user user buf bytes (ground (arith, ok))))
                  | inr failed ↦ inl (λ ok. ground (arith, ok, failed))
                ],
              )
        ],
      )

  -- The section that `write` of the pipe runs, against the queue: a full queue, one byte short of the
  -- buffer, makes a non-blocking caller return -EAGAIN and any other sleep. Otherwise, unless the copy
  -- fails, as many of the caller's bytes as fit in one piece, at least one if `count` is not 0, are
  -- appended, readers are woken and SIGIO is sent to the files that asked for it. After a fault the
  -- queue is as before.
  pub write_refines :
      IsLawful U
      → IsValid p
      → let n = min count (writable p) in
        (p' : Pipe) × (failed : Pipe) × (write_section U nonblock buf count p user ≡ (
          if length (contents p) == p.buffersize - 1
          then waits
          else if incoming.0 == 0
          then fin
              (pos n)
              p'
              user
              (record { readers = true; writers = false; sigio = p.async_queue })
          else fin efault failed user quiet))
        × IsValid p'
        × IsValid failed
        × ((incoming.0 ≢ 0) ⊎ (contents p' ≡ contents p ++ U.read_user user buf n))
        × (contents failed ≡ contents p)
        × (length (contents p) + n ≤ p.buffersize - 1)
        × ((length (contents p) ≡ p.buffersize - 1) ⊎ ((count ≡ 0) ⊎ (0 < n)))
  unfolding write_section
  write_refines lawful v =
      let n = min count (writable p) in
      let old = slice (memory p) p.wp n in
      let all : length old ≡ n = ground (arith, v, length-slice (memory p) p.wp n) in
      let same_length : length incoming.1 ≡ n =
        omega (arith, all, lawful.from_user_length user buf old) in
      (
        stored incoming.1 n p,
        landed incoming.1 p,
        ground (arith, is_full p v, write_ready_lem U nonblock buf count p user v),
        stored-IsValid incoming.1 n p v (omega arith),
        landed-IsValid incoming.1 p v,
        elim (Bool-cases (incoming.0 == 0)) [
          | inl ok ↦ inr (
              rw same_length at (contents-stored incoming.1 p v (omega (arith, same_length)))
              ∙ ap (λ (b : Bytes). contents p ++ b)
                  (lawful.from_user user buf old (ground (arith, ok))
                    ∙ ap (U.read_user user buf) all))
          | inr failed ↦ inl (λ ok. ground (arith, ok, failed))
        ],
        contents-landed incoming.1 p v (omega (arith, same_length)),
        ground (arith, v, length-contents p v),
        ground (arith, v, length-contents p v),
      )
