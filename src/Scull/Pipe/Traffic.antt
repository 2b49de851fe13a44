-- ===== src/Scull/Pipe/Traffic.antt =====
-- Readers and writers of the pipe of code/examples/scull/pipe.c in any order: the semaphore makes what
-- they do a sequence of locked sections.
use linux_drivers_study.Prelude.{
  ℕ, ◌-◌, ◌≡◌, refl, arith, length, ◌==◌, Bool, take, drop, ◌++◌, inl, inr, Bool-cases, Option,
  some, none, List, [], ◌∷◌, take-append-drop, not, if◌then◌else◌, true, false,
}
use mathlib.Core.List.{append_assoc, append-nil}
use linux_drivers_study.Prelude.Bytes.{Bytes}
use linux_drivers_study.Prelude.Int.{ℤ, pos, negsuc}
use linux_drivers_study.Kernel.Errno.{eagain, efault}
use linux_drivers_study.Kernel.Uaccess.{Uaccess, IsLawful}
use linux_drivers_study.Fifo.{quiet}
use linux_drivers_study.Scull.Pipe.{
  Pipe, Section, fin, sleep, fault, read_section, write_section, poll,
}
use linux_drivers_study.Scull.Pipe.Queue.{IsValid, contents}
use linux_drivers_study.Scull.Pipe.Sections.{
  outgoing, incoming, read_refines, write_refines, read_ready_lem, write_ready_lem,
}

-- A section of a read or write: the buffer, the count and the memory of the process that calls.
pub data Call (User : Type 0) : Type 0 where
  reading writing : (nonblock : Bool) (buf count : ℕ) (user : User) → Call User

-- The pipe, and what the calls so far have been told that they wrote and that they read.
pub record Traffic : Type 0 where
  pub pipe : Pipe
  pub written : Bytes
  pub delivered : Bytes

module _ (U : Uaccess) where
  -- The bytes at `buf` that a result says were moved.
  abbrev pub moved : U.User → ℕ → ℤ → Bytes
  moved user buf (pos n) = U.read_user user buf n
  moved user buf (negsuc e) = []

  abbrev pub after_read : ℕ → Traffic → Section U.User → Option Traffic
  after_read buf t (fin ret p user s) =
      some (record t { pipe = p; delivered = t.delivered ++ moved user buf ret })
  after_read buf t sleep = some t
  after_read buf t fault = none

  abbrev pub after_write : ℕ → Traffic → Section U.User → Option Traffic
  after_write buf t (fin ret p user s) =
      some (record t { pipe = p; written = t.written ++ moved user buf ret })
  after_write buf t sleep = some t
  after_write buf t fault = none

  unfoldable pub run_call : Call U.User → Traffic → Option Traffic
  run_call (reading nonblock buf count user) t =
      after_read buf t (read_section U nonblock buf count t.pipe user)
  run_call (writing nonblock buf count user) t =
      after_write buf t (write_section U nonblock buf count t.pipe user)

  unfoldable pub run_calls : List (Call U.User) → Traffic → Option Traffic
  run_calls [] t = some t
  run_calls (c ∷ cs) t = elim (run_call c t) [ none ↦ none | some t' ↦ run_calls cs t' ]

-- What was written is what was delivered, followed by what the pipe holds.
pub record IsConserved (before : Bytes) (t : Traffic) : Type 0 where
  pub valid : IsValid t.pipe
  pub bytes : before ++ t.written ≡ t.delivered ++ contents t.pipe

module _ (U : Uaccess) (lawful : IsLawful U) (before : Bytes) (nonblock : Bool) (buf count : ℕ)
    (user : U.User) (t : Traffic) (c : IsConserved before t) where
  -- A call that waits, or whose copy fails, moves nothing.
  unmoved :
      (ret : ℤ) (p : Pipe) (user' : U.User)
      → IsValid p
      → contents p ≡ contents t.pipe
      → moved U user' buf ret ≡ []
      → IsConserved before (record t { pipe = p; delivered = t.delivered ++ moved U user' buf ret })
        × IsConserved before (record t { pipe = p; written = t.written ++ moved U user' buf ret })
  unmoved ret p user' v same none_moved = (
    record { valid = v; bytes = rw (none_moved, append-nil t.delivered, same) c.bytes },
    record { valid = v; bytes = rw (none_moved, append-nil t.written, same) c.bytes },
  )

  delivered_more :
      (n : ℕ) (p : Pipe) (user' : U.User)
      → IsValid p
      → contents p ≡ drop n (contents t.pipe)
      → U.read_user user' buf n ≡ take n (contents t.pipe)
      → IsConserved before
          (record t { pipe = p; delivered = t.delivered ++ moved U user' buf (pos n) })
  delivered_more n p user' v rest got = record {
    valid = v;
    bytes = rw (rest, got, append_assoc, take-append-drop n (contents t.pipe)) c.bytes;
  }

  written_more :
      (n : ℕ) (p : Pipe)
      → IsValid p
      → contents p ≡ contents t.pipe ++ U.read_user user buf n
      → IsConserved before (record t { pipe = p; written = t.written ++ moved U user buf (pos n) })
  written_more n p v more = record {
    valid = v;
    bytes = rw (more, ← append_assoc before, c.bytes, append_assoc) refl;
  }

  abbrev Goes : Option Traffic → Type 0
  Goes r = (t' : Traffic) × (r ≡ some t') × IsConserved before t'

  Goes-eq :
      (f : Section U.User → Option Traffic) (s s' : Section U.User)
      → s ≡ s'
      → Goes (f s')
      → Goes (f s)
  Goes-eq f s s' e g = rw e g

  waits_read : Goes (after_read U buf t (if nonblock then fin eagain t.pipe user quiet else sleep))
  waits_read = elim (Bool-cases nonblock) [
    | inl e ↦ rw e (_, refl, (unmoved eagain t.pipe user c.valid refl refl).0)
    | inr e ↦ rw e (t, refl, c)
  ]

  waits_write :
      Goes (after_write U buf t (if nonblock then fin eagain t.pipe user quiet else sleep))
  waits_write = elim (Bool-cases nonblock) [
    | inl e ↦ rw e (_, refl, (unmoved eagain t.pipe user c.valid refl refl).1)
    | inr e ↦ rw e (t, refl, c)
  ]

  reads_on : Goes (run_call U (reading nonblock buf count user) t)
  unfolding run_call
  reads_on =
      let (p', user', e, some_left) =
        read_refines U nonblock buf count t.pipe user lawful c.valid in
      Goes-eq (after_read U buf t) _ _ e (elim (Bool-cases (length (contents t.pipe) == 0)) [
        | inl empty ↦ rw empty waits_read
        | inr holds ↦ rw holds (elim some_left [
          | inl empty ↦ absurd (ground (arith, holds, empty))
          | inr (v, rest, fits, moves, got) ↦
              elim (Bool-cases ((outgoing U nonblock buf count t.pipe user).0 == 0)) [
                | inl ok ↦ rw ok (elim got [
                  | inl failed ↦ absurd (failed (ground (arith, ok)))
                  | inr bytes ↦ (_, refl, delivered_more _ p' user' v rest bytes)
                ])
                | inr failed ↦
                    rw failed (_, refl, (unmoved efault t.pipe user' c.valid refl refl).0)
              ]
        ])
      ])

  writes_on : Goes (run_call U (writing nonblock buf count user) t)
  unfolding run_call
  writes_on =
      let (p', failed, e, v, failed_valid, got, kept, room, moves) =
        write_refines U nonblock buf count t.pipe user lawful c.valid in
      Goes-eq (after_write U buf t) _ _ e
        (elim (Bool-cases (length (contents t.pipe) == t.pipe.buffersize - 1)) [
          | inl full ↦ rw full waits_write
          | inr open_room ↦
              rw open_room (elim (Bool-cases ((incoming U nonblock buf count t.pipe user).0 == 0)) [
                | inl ok ↦ rw ok (elim got [
                  | inl bad ↦ absurd (bad (ground (arith, ok)))
                  | inr bytes ↦ (_, refl, written_more _ p' v bytes)
                ])
                | inr bad ↦ rw bad (_, refl, (unmoved efault failed user failed_valid kept refl).1)
              ])
        ])

call_conserves :
    (U : Uaccess)
    → IsLawful U
    → (before : Bytes) (call : Call U.User) (t : Traffic) → IsConserved before t
    → (t' : Traffic) × (run_call U call t ≡ some t') × IsConserved before t'
call_conserves U lawful before (reading nonblock buf count user) t c =
    reads_on U lawful before nonblock buf count user t c
call_conserves U lawful before (writing nonblock buf count user) t c =
    writes_on U lawful before nonblock buf count user t c

calls_conserve :
    (U : Uaccess)
    → IsLawful U
    → (before : Bytes) (calls : List (Call U.User)) (t : Traffic) → IsConserved before t
    → (t' : Traffic) × (run_calls U calls t ≡ some t') × IsConserved before t'
unfolding run_calls
calls_conserve U lawful before [] t c = (t, refl, c)
calls_conserve U lawful before (call ∷ calls) t c =
    let (t1, e, c1) = call_conserves U lawful before call t c in
    let (t2, e2, c2) = calls_conserve U lawful before calls t1 c1 in (t2, rw (run_calls, e) e2, c2)

-- Over any sequence of sections of readers and writers, without an open in between, with any counts, blocking or not, and with copies that
-- fail: no access leaves the buffer, the pipe stays valid, and the bytes that the calls report as read,
-- followed by those that the pipe holds, are the bytes that it held at first followed by those
-- reported as written. Nothing is lost, doubled or reordered, however often the buffer wraps.
pub pipe_conserves :
    (U : Uaccess)
    → IsLawful U
    → (calls : List (Call U.User)) (p : Pipe) → IsValid p
    → (t : Traffic) × (run_calls U calls (record { pipe = p; written = []; delivered = [] })
        ≡ some t)
      × IsValid t.pipe
      × (contents p ++ t.written ≡ t.delivered ++ contents t.pipe)
pipe_conserves U lawful calls p v =
    let start : IsConserved (contents p) (record { pipe = p; written = []; delivered = [] }) =
      record { valid = v; bytes = append-nil (contents p) } in
    let (t, e, c) = calls_conserve U lawful (contents p) calls _ start in (t, e, c.valid, c.bytes)

-- Whether a section returns -EAGAIN.
abbrev is_eagain : ℤ → Bool
is_eagain (pos n) = false
is_eagain (negsuc e) = e == 10

abbrev pub refused : {User : Type 0} → Section User → Bool
refused (fin ret p user sig) = is_eagain ret
refused sleep = false
refused fault = false

-- poll of a valid pipe reports readable exactly when a non-blocking read does not return -EAGAIN, and
-- writable exactly when a non-blocking write does not, whatever their buffers and counts.
pub pipe_poll_agrees :
    (U : Uaccess) (buf count : ℕ) (p : Pipe) (user : U.User)
    → IsValid p
    → ((poll p).in_norm ≡ not (refused (read_section U true buf count p user)))
      × ((poll p).out_norm ≡ not (refused (write_section U true buf count p user)))
unfolding poll read_section write_section
pipe_poll_agrees U buf count p user v = (
  ground (arith, read_ready_lem U true buf count p user v),
  ground (arith, write_ready_lem U true buf count p user v),
)
