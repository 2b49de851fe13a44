-- ===== src/Scull/Pipe/Handlers.antt =====
-- `scull_p_read` and `scull_p_write` of code/examples/scull/pipe.c as wholes: the semaphore, and the wait
-- loops over a schedule of wake-ups. A caller that still waits at the schedule's end is `asleep`.
use linux_drivers_study.Prelude.{
  ℕ, ◌≡◌, ◌≢◌, ◌-◌, arith, length, ◌==◌, Bool, true, false, List, [], ◌∷◌, ◌++◌, refl, Bool-cases,
  inl, inr, if◌then◌else◌,
}
use linux_drivers_study.Prelude.Int.{ℤ}
use linux_drivers_study.Kernel.Errno.{erestartsys}
use linux_drivers_study.Kernel.Uaccess.{Uaccess, IsLawful}
use linux_drivers_study.Fifo.{Signals, quiet}
use linux_drivers_study.Scull.Pipe.{Pipe, Section, fin, sleep, fault, read_section, write_section}
use linux_drivers_study.Scull.Pipe.Queue.{IsValid, contents}
use linux_drivers_study.Scull.Pipe.Sections.{outgoing, incoming, read_refines, write_refines}

-- How a sleep ends: by a signal, also one that interrupts the `down` after it, or after a wake-up; the
-- pipe and the caller's memory are as they are then.
pub data Wake (User : Type 0) : Type 0 where
  signal woken : Pipe → User → Wake User

pub data Handled (User : Type 0) : Type 0 where
  finished : (ret : ℤ) → Pipe → User → Signals → Handled User
  asleep broken : Handled User

unfoldable pub resume : {User : Type 0} → Section User → Handled User → Handled User
resume (fin ret p user s) next = finished ret p user s
resume sleep next = next
resume fault next = broken

unfoldable pub wait_loop :
    {User : Type 0} → (Pipe → User → Section User) → List (Wake User) → Pipe → User → Handled User
wait_loop section [] p user = resume (section p user) asleep
wait_loop section (signal p' user' ∷ ws) p user =
    resume (section p user) (finished erestartsys p' user' quiet)
wait_loop section (woken p' user' ∷ ws) p user =
    resume (section p user) (wait_loop section ws p' user')

module _ (U : Uaccess) (nonblock : Bool) (buf count : ℕ) (interrupted : Bool) where
  unfoldable pub read : List (Wake U.User) → Pipe → U.User → Handled U.User
  read ws p user =
      if interrupted
      then finished erestartsys p user quiet
      else wait_loop (read_section U nonblock buf count) ws p user

  unfoldable pub write : List (Wake U.User) → Pipe → U.User → Handled U.User
  write ws p user =
      if interrupted
      then finished erestartsys p user quiet
      else wait_loop (write_section U nonblock buf count) ws p user

-- Other processes leave the pipe valid.
abbrev pub KeepValid : {User : Type 0} → List (Wake User) → Type 0
KeepValid [] = Unit
KeepValid (signal p user ∷ ws) = IsValid p × KeepValid ws
KeepValid (woken p user ∷ ws) = IsValid p × KeepValid ws

-- A section that keeps the pipe valid and, unless the call may wait, ends.
abbrev pub IsSafeSection : {User : Type 0} → Bool → Section User → Type 0
IsSafeSection may_wait (fin ret p user s) = IsValid p
IsSafeSection may_wait sleep = may_wait ≡ true
IsSafeSection may_wait fault = ⊥

abbrev pub Returns : {User : Type 0} → Handled User → Type 0
Returns (finished ret p user s) = IsValid p
Returns asleep = ⊥
Returns broken = ⊥

IsSafeSection-eq :
    {User : Type 0} (may_wait : Bool) {s s' : Section User}
    → s ≡ s'
    → IsSafeSection may_wait s'
    → IsSafeSection may_wait s
IsSafeSection-eq may_wait e h = rw e h

resume-Returns :
    {User : Type 0} (may_wait : Bool) (section : Section User) (next : Handled User)
    → IsSafeSection may_wait section
    → (may_wait ≡ true → Returns next)
    → Returns (resume section next)
unfolding resume
resume-Returns may_wait (fin ret p user s) next safe h = safe
resume-Returns may_wait sleep next safe h = h safe
resume-Returns may_wait fault next safe h = absurd safe

module _ (U : Uaccess) (nonblock : Bool) (buf count : ℕ) (p : Pipe) (user : U.User)
    (lawful : IsLawful U) (v : IsValid p) where
  read-IsSafe : IsSafeSection (length (contents p) == 0) (read_section U nonblock buf count p user)
  read-IsSafe =
      let (p', user', e, some_left) = read_refines U nonblock buf count p user lawful v in
      IsSafeSection-eq (length (contents p) == 0) e (elim (Bool-cases (length (contents p) == 0)) [
        | inl empty ↦ rw empty (elim (Bool-cases nonblock) [ inl n ↦ rw n v | inr n ↦ rw n refl ])
        | inr holds ↦ rw holds (elim some_left [
          | inl empty ↦ absurd (ground (arith, holds, empty))
          | inr (v', rest, fits, moves, got) ↦
              elim (Bool-cases ((outgoing U nonblock buf count p user).0 == 0)) [
                | inl ok ↦ rw ok v'
                | inr failed ↦ rw failed v
              ]
        ])
      ])

  write-IsSafe :
      IsSafeSection
        (length (contents p) == p.buffersize - 1)
        (write_section U nonblock buf count p user)
  write-IsSafe =
      let (p', failed, e, v', failed_valid, got, kept, fits, moves) =
        write_refines U nonblock buf count p user lawful v in
      IsSafeSection-eq (length (contents p) == p.buffersize - 1) e
        (elim (Bool-cases (length (contents p) == p.buffersize - 1)) [
          | inl full ↦ rw full (elim (Bool-cases nonblock) [ inl n ↦ rw n v | inr n ↦ rw n refl ])
          | inr room ↦ rw room (elim (Bool-cases ((incoming U nonblock buf count p user).0 == 0)) [
            | inl ok ↦ rw ok v'
            | inr bad ↦ rw bad failed_valid
          ])
        ])

module _ {User : Type 0} (section : Pipe → User → Section User) (may_wait : Pipe → Bool)
    (safe : (p : Pipe) (user : User) → IsValid p → IsSafeSection (may_wait p) (section p user))
    (q : Pipe) (user' : User) (q_valid : IsValid q) (ready : may_wait q ≡ false) where
  wait_loop-Returns :
      (ws : List (Wake User)) (p : Pipe) (user : User)
      → KeepValid ws
      → IsValid p
      → Returns (wait_loop section (ws ++ (woken q user' ∷ [])) p user)
  unfolding wait_loop
  wait_loop-Returns [] p user k v =
      resume-Returns (may_wait p) (section p user) _ (safe p user v) (λ w.
        resume-Returns (may_wait q) (section q user') asleep (safe q user' q_valid)
          (λ w'. absurd (cc)))
  wait_loop-Returns (signal p' u ∷ ws) p user k v =
      resume-Returns (may_wait p) (section p user) _ (safe p user v) (λ w. k.0)
  wait_loop-Returns (woken p' u ∷ ws) p user k v =
      resume-Returns (may_wait p) (section p user) _ (safe p user v)
        (λ w. wait_loop-Returns ws p' u k.1 k.0)

-- After any schedule that keeps the pipe valid, interrupted or not, a read that is woken beside a pipe
-- that holds bytes returns, and so does a write that is woken beside one with room, at that wake-up or
-- before, with no access outside the buffer and the pipe valid.
pub pipe_calls_return :
    (U : Uaccess) (nonblock : Bool) (buf count : ℕ) (interrupted : Bool) (ws : List (Wake U.User))
    (p filled room : Pipe) (user user' : U.User)
    → IsLawful U
    → KeepValid ws
    → IsValid p
    → IsValid filled
    → IsValid room
    → length (contents filled) ≢ 0
    → length (contents room) ≢ room.buffersize - 1
    → Returns (read U nonblock buf count interrupted (ws ++ (woken filled user' ∷ [])) p user)
      × Returns (write U nonblock buf count interrupted (ws ++ (woken room user' ∷ [])) p user)
unfolding read write
pipe_calls_return U nonblock buf count interrupted ws p filled room user user' lawful k v fv rv
      some_left some_room =
    elim (Bool-cases interrupted) [
      | inl stopped ↦ rw stopped (v, v)
      | inr goes ↦ rw goes (
        wait_loop-Returns (read_section U nonblock buf count) (λ q. length (contents q) == 0)
            (λ q u qv. read-IsSafe U nonblock buf count q u lawful qv) filled user' fv
            (ground (arith, some_left)) ws p user k v,
        wait_loop-Returns (write_section U nonblock buf count)
            (λ q. length (contents q) == q.buffersize - 1)
            (λ q u qv. write-IsSafe U nonblock buf count q u lawful qv) room user' rv
            (ground (arith, some_room)) ws p user k v,
      )
    ]
