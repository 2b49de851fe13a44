-- ===== src/Fifo/Sections.antt =====
-- The locked sections of code/globalfifo/ch9/globalfifo.c against a queue of bytes.
use linux_drivers_study.Prelude.{
  ℕ, ◌+◌, ◌-◌, ◌≤◌, ◌≡◌, ◌≢◌, arith, length, ◌==◌, leb, refl, if◌then◌else◌, ◌∙◌, ap, sym, Bool,
  true, false, take, drop, ◌++◌, min, take-take, drop-take, length-take, inl, inr, ◌⊎◌, Bool-cases,
}
use linux_drivers_study.Prelude.Bytes.{
  Bytes, slice, load_inside, splice, length-splice, take-splice_end, take-splice_below,
  length-slice,
}
use linux_drivers_study.Prelude.Int.{pos}
use linux_drivers_study.Kernel.Errno.{efault, eagain}
use linux_drivers_study.Kernel.Uaccess.{Uaccess, IsLawful, CopiesUp}
use linux_drivers_study.Fifo.{
  Fifo, globalfifo_size, move_front, quiet, Section, fin, sleep, read_ready, read_section,
  write_ready, write_section,
}

pub record IsValid (f : Fifo) : Type 0 where
  pub whole : length f.mem ≡ globalfifo_size
  pub inside : f.current_len ≤ globalfifo_size

-- The queue that the device holds, oldest byte first.
abbrev pub contents : Fifo → Bytes
contents f = take f.current_len f.mem

-- What is left after `n` bytes are read.
abbrev pub taken : Uaccess → ℕ → Fifo → Fifo
taken U n f = record f {
  current_len = f.current_len - n;
  mem = move_front U f.mem n (slice f.mem n (f.current_len - n));
}

-- With bytes stored behind the contents, and the length raised by `n`.
abbrev pub stored : Bytes → ℕ → Fifo → Fifo
stored bs n f = record f { current_len = f.current_len + n; mem = splice f.mem f.current_len bs }

pub length-contents : (f : Fifo) → IsValid f → length (contents f) ≡ f.current_len
length-contents f v = omega (arith, length-take f.current_len f.mem)

length-move_front :
    (U : Uaccess) (mem : Bytes) (n : ℕ) (rest : Bytes)
    → length (move_front U mem n rest) ≡ length mem
unfolding move_front
length-move_front U mem n rest =
    length-splice mem 0 (if leb (length rest) n then rest else U.overlapped mem 0 n (length rest))

move_front_lem :
    (U : Uaccess) (mem : Bytes) (n k : ℕ)
    → CopiesUp U
    → n + k ≤ length mem
    → move_front U mem n (slice mem n k) ≡ splice mem 0 (slice mem n k)
unfolding move_front
move_front_lem U mem n k up inside =
    let same : length (slice mem n k) ≡ k = omega (arith, length-slice mem n k) in
    elim (Bool-cases (leb (length (slice mem n k)) n)) [
      | inl apart ↦ rw apart refl
      | inr overlap ↦ rw (overlap, same, up.upwards mem 0 n k (omega arith) inside) refl
    ]

pub contents-taken :
    (U : Uaccess) (n : ℕ) (f : Fifo)
    → CopiesUp U
    → IsValid f
    → n ≤ f.current_len
    → contents (taken U n f) ≡ drop n (contents f)
contents-taken U n f up v h =
    let rest = slice f.mem n (f.current_len - n) in
    let e : 0 + length rest ≡ f.current_len - n =
      omega (arith, length-slice f.mem n (f.current_len - n)) in
    rw (move_front_lem U f.mem n (f.current_len - n) up (omega arith)) (
      rw e at (take-splice_end f.mem 0 rest (omega (arith, e)))
      ∙ sym (drop-take n f.current_len f.mem))

pub taken-IsValid :
    (U : Uaccess) (n : ℕ) (f : Fifo) → IsValid f → n ≤ f.current_len → IsValid (taken U n f)
taken-IsValid U n f v h =
    omega (arith, length-move_front U f.mem n (slice f.mem n (f.current_len - n)))

pub contents-stored :
    (bs : Bytes) (f : Fifo)
    → IsValid f
    → f.current_len + length bs ≤ globalfifo_size
    → contents (stored bs (length bs) f) ≡ contents f ++ bs
contents-stored bs f v h = take-splice_end f.mem f.current_len bs (omega arith)

pub stored-IsValid :
    (bs : Bytes) (n : ℕ) (f : Fifo)
    → IsValid f
    → f.current_len + n ≤ globalfifo_size
    → IsValid (stored bs n f)
stored-IsValid bs n f v h = omega (arith, length-splice f.mem f.current_len bs)

module _ (U : Uaccess) (nonblock : Bool) (buf count : ℕ) (f : Fifo) (user : U.User)
    (v : IsValid f) where
  pub read_ready_lem :
      let n = min count f.current_len in
      let copied = U.copy_to_user user buf (take n (contents f)) in
      read_ready U nonblock buf count f user ≡ (
        if copied.0 == 0
        then fin (pos n) (taken U n f) copied.1 (record quiet { writers = true })
        else fin efault f copied.1 quiet)
  unfolding read_ready
  read_ready_lem = ground (
    arith,
    load_inside f.mem 0 (min count f.current_len),
    load_inside f.mem (min count f.current_len) (f.current_len - min count f.current_len),
    take-take (min count f.current_len) f.current_len f.mem,
  )

  pub write_ready_lem :
      let n = min count (globalfifo_size - f.current_len) in
      let copied = U.copy_from_user user buf (slice f.mem f.current_len n) in
      write_ready U nonblock buf count f user ≡ (
        if copied.0 == 0
        then fin
            (pos n)
            (stored copied.1 n f)
            user
            (record { readers = true; writers = false; sigio = f.async_queue })
        else fin efault (record f { mem = splice f.mem f.current_len copied.1 }) user quiet)
  unfolding write_ready
  write_ready_lem =
      ground (arith, load_inside f.mem f.current_len (min count (globalfifo_size - f.current_len)))

module _ (U : Uaccess) (nonblock : Bool) (buf count : ℕ) (f : Fifo) (user : U.User) where
  -- How many bytes a section moves, and what its copy returns.
  abbrev pub outgoing : ℕ × U.User
  outgoing = U.copy_to_user user buf (take (min count f.current_len) (contents f))

  abbrev pub incoming : ℕ × Bytes
  incoming =
      U.copy_from_user user buf
        (slice f.mem f.current_len (min count (globalfifo_size - f.current_len)))

  -- A call that has nothing to do yet.
  abbrev pub waits : Section U.User
  waits = if nonblock then fin eagain f user quiet else sleep

  -- The section of `read`, with what is left of the queue for a memcpy that copies upwards.
  pub read_section_lem :
      IsLawful U
      → IsValid f
      → let n = min count f.current_len in
        (f' : Fifo) × (user' : U.User) × (read_section U nonblock buf count f user ≡ (
          if f.current_len == 0
          then waits
          else if outgoing.0 == 0
          then fin (pos n) f' user' (record quiet { writers = true })
          else fin efault f user' quiet))
        × IsValid f'
        × (f'.current_len ≡ f.current_len - n)
        × (CopiesUp U → contents f' ≡ drop n (contents f))
        × ((outgoing.0 ≢ 0) ⊎ (U.read_user user' buf n ≡ take n (contents f)))
  unfolding read_section
  read_section_lem lawful v =
      let n = min count f.current_len in
      let bytes = take n (contents f) in
      let all : length bytes ≡ n = omega (arith, length-take n (contents f), length-contents f v) in
      (
        taken U n f,
        outgoing.1,
        ground (arith, read_ready_lem U nonblock buf count f user v),
        taken-IsValid U n f v (omega arith),
        refl,
        (λ up. contents-taken U n f up v (omega arith)),
        elim (Bool-cases (outgoing.0 == 0)) [
          | inl ok ↦ inr (rw all at (lawful.to_user user buf bytes (ground (arith, ok))))
          | inr failed ↦ inl (λ ok. ground (arith, ok, failed))
        ],
      )

  -- The section that `write` runs, against the queue: a full queue makes a non-blocking caller return
  -- -EAGAIN and any other sleep. Otherwise, unless the copy fails, as many of the caller's bytes as fit
  -- are appended, readers are woken, and SIGIO is sent if some process asked for it. After a fault the
  -- queue is as before.
  pub write_section_refines :
      IsLawful U
      → IsValid f
      → let n = min count (globalfifo_size - f.current_len) in
        (f' : Fifo) × (failed : Fifo) × (write_section U nonblock buf count f user ≡ (
          if f.current_len == globalfifo_size
          then waits
          else if incoming.0 == 0
          then fin
              (pos n)
              f'
              user
              (record { readers = true; writers = false; sigio = f.async_queue })
          else fin efault failed user quiet))
        × IsValid f'
        × IsValid failed
        × ((incoming.0 ≢ 0) ⊎ (contents f' ≡ contents f ++ U.read_user user buf n))
        × (contents failed ≡ contents f)
  unfolding write_section
  write_section_refines lawful v =
      let n = min count (globalfifo_size - f.current_len) in
      let old = slice f.mem f.current_len n in
      let all : length old ≡ n = omega (arith, length-slice f.mem f.current_len n) in
      let landed : length incoming.1 ≡ n = omega (arith, lawful.from_user_length user buf old) in
      (
        stored incoming.1 n f,
        record f { mem = splice f.mem f.current_len incoming.1 },
        ground (arith, write_ready_lem U nonblock buf count f user v),
        stored-IsValid incoming.1 n f v (omega arith),
        omega (arith, length-splice f.mem f.current_len incoming.1),
        elim (Bool-cases (incoming.0 == 0)) [
          | inl ok ↦ inr (
              rw landed at (contents-stored incoming.1 f v (omega arith))
              ∙ ap (λ (b : Bytes). contents f ++ b)
                  (lawful.from_user user buf old (ground (arith, ok))
                    ∙ ap (U.read_user user buf) all))
          | inr failed ↦ inl (λ ok. ground (arith, ok, failed))
        ],
        take-splice_below f.mem f.current_len f.current_len incoming.1 (omega arith),
      )
