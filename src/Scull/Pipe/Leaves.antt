-- ===== src/Scull/Pipe/Leaves.antt =====
-- What a locked section of code/examples/scull/pipe.c leaves for those who sleep.
use linux_drivers_study.Prelude.{
  ℕ, ◌-◌, ◌≡◌, ◌≢◌, ◌⊎◌, inl, inr, refl, arith, length, ◌==◌, if◌then◌else◌, Bool, true, false,
  Bool-cases, ap, min,
}
use linux_drivers_study.Prelude.Bytes.{slice, length-slice}
use linux_drivers_study.Kernel.Errno.{eagain}
use linux_drivers_study.Kernel.Uaccess.{Uaccess, IsLawful}
use linux_drivers_study.Fifo.{quiet}
use linux_drivers_study.Scull.Pipe.{
  Pipe, Section, fin, sleep, fault, read_section, write_section, memory, read_ready, write_ready,
}
use linux_drivers_study.Scull.Pipe.Queue.{IsValid, contents, readable, writable}
use linux_drivers_study.Scull.Pipe.Sections.{
  outgoing, incoming, waits, read_ready_lem, write_ready_lem, is_empty, is_full,
}
use linux_drivers_study.Scull.Pipe.Contents.{
  taken-IsValid, stored-IsValid, landed-IsValid, contents-landed,
}

-- What a section leaves: a pipe with as many bytes, or with other bytes and those woken who may wait for
-- that, beside a pipe that nobody of the section's own kind waited for.
abbrev pub Leaves : {User : Type 0} → Pipe → Section User → Type 0
Leaves p (fin ret p' user' s) =
    IsValid p'
    × (p'.buffersize ≡ p.buffersize)
    × ((length (contents p') ≡ length (contents p))
        ⊎ (((s.writers ≡ true) × (length (contents p) ≢ 0))
            ⊎ ((s.readers ≡ true) × (length (contents p) ≢ p.buffersize - 1))))
Leaves p sleep = Unit
Leaves p fault = ⊥

-- Only a call with nothing to do sleeps.
abbrev pub SleepsAt : {User : Type 0} → (nothing_to_do : Bool) → Section User → Type 0
SleepsAt b (fin ret p' user' s) = Unit
SleepsAt b sleep = b ≡ true
SleepsAt b fault = ⊥

section-eq : {User : Type 0} (P : Section User → Type 0) {s s' : Section User} → s ≡ s' → P s' → P s
section-eq P e h = rw e h

module _ (U : Uaccess) (lawful : IsLawful U) (nonblock : Bool) (buf count : ℕ) (p : Pipe)
    (user : U.User) (v : IsValid p) where
  abbrev pub Both : (nothing_to_do : Bool) → Section U.User → Type 0
  Both b s = Leaves p s × SleepsAt b s

  waits-Both : Both true (if nonblock then fin eagain p user quiet else sleep)
  waits-Both = elim (Bool-cases nonblock) [
    | inl n ↦ rw n ((v, refl, inl refl), tt)
    | inr n ↦ rw n (tt, refl)
  ]

  pub read_leaves : Both (length (contents p) == 0) (read_section U nonblock buf count p user)
  unfolding read_section
  read_leaves =
      let ready = read_ready U nonblock buf count p user in
      section-eq (Both (length (contents p) == 0))
        {s' = if length (contents p) == 0 then waits U nonblock buf count p user else ready}
        (rw (read_section, is_empty p v) refl)
        (elim (Bool-cases (length (contents p) == 0)) [
          | inl empty ↦ rw empty waits-Both
          | inr holds ↦ rw holds (
              section-eq (Both false)
                (read_ready_lem U nonblock buf count p user v (ground (arith, holds, is_empty p v)))
                (elim (Bool-cases ((outgoing U nonblock buf count p user).0 == 0)) [
                  | inl ok ↦ rw ok (
                    (
                      taken-IsValid (min count (readable p)) p v (omega arith),
                      refl,
                      inr (inl (refl, ground (arith, holds))),
                    ),
                    tt,
                  )
                  | inr failed ↦ rw failed ((v, refl, inl refl), tt)
                ]))
        ])

  pub write_leaves :
      Both (length (contents p) == p.buffersize - 1) (write_section U nonblock buf count p user)
  unfolding write_section
  write_leaves =
      let n = min count (writable p) in
      let ready = write_ready U nonblock buf count p user in
      let landed_n = incoming U nonblock buf count p user in
      let same_length : length landed_n.1 ≡ n = ground (
        arith,
        v,
        length-slice (memory p) p.wp n,
        lawful.from_user_length user buf (slice (memory p) p.wp n),
      ) in
      section-eq (Both (length (contents p) == p.buffersize - 1))
        {s' = if length (contents p) == p.buffersize - 1
          then waits U nonblock buf count p user
          else ready}
        (rw (write_section, is_full p v) refl)
        (elim (Bool-cases (length (contents p) == p.buffersize - 1)) [
          | inl full ↦ rw full waits-Both
          | inr not_full ↦ rw not_full (
              section-eq (Both false) (write_ready_lem U nonblock buf count p user v)
                (elim (Bool-cases (landed_n.0 == 0)) [
                  | inl ok ↦ rw ok (
                    (
                      stored-IsValid landed_n.1 n p v (omega arith),
                      refl,
                      inr (inr (refl, ground (arith, not_full))),
                    ),
                    tt,
                  )
                  | inr bad ↦ rw bad (
                    (
                      landed-IsValid landed_n.1 p v,
                      refl,
                      inl (ap length (contents-landed landed_n.1 p v (omega (arith, same_length)))),
                    ),
                    tt,
                  )
                ]))
        ])
