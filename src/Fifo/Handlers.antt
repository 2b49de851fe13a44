-- ===== src/Fifo/Handlers.antt =====
-- `globalfifo_read` and `globalfifo_write` of code/globalfifo/ch9/globalfifo.c as wholes: the wait loop over a schedule of wake-ups. The
-- schedule is a list, so the loop ends; a caller that is still waiting at its end is `asleep`.
use linux_drivers_study.Prelude.{
  ℕ, ◌≡◌, ◌≢◌, arith, Bool, true, false, List, [], ◌∷◌, refl, Bool-cases, inl, inr, ◌==◌, ◌-◌, min,
  take, if◌then◌else◌,
}
use linux_drivers_study.Prelude.Bytes.{slice, length-splice}
use linux_drivers_study.Prelude.Int.{ℤ}
use linux_drivers_study.Kernel.Errno.{erestartsys, eagain, efault}
use linux_drivers_study.Kernel.Uaccess.{Uaccess}
use linux_drivers_study.Fifo.{
  Fifo, globalfifo_size, Signals, quiet, Section, fin, sleep, fault, read_section, write_section,
  read_ready, write_ready,
}
use linux_drivers_study.Fifo.Sections.{
  IsValid, contents, taken-IsValid, stored-IsValid, read_ready_lem, write_ready_lem,
}

-- How `schedule()` comes back: with a signal pending, or after a wake-up; the device and the caller's
-- memory are as they are then.
pub data Wake (User : Type 0) : Type 0 where
  signal woken : Fifo → User → Wake User

pub data Handled (User : Type 0) : Type 0 where
  finished : (ret : ℤ) → Fifo → User → Signals → Handled User
  asleep broken : Handled User

unfoldable pub resume : {User : Type 0} → Section User → Handled User → Handled User
resume (fin ret f user s) next = finished ret f user s
resume sleep next = next
resume fault next = broken

unfoldable pub wait_loop :
    {User : Type 0} → (Fifo → User → Section User) → List (Wake User) → Fifo → User → Handled User
wait_loop section [] f user = resume (section f user) asleep
wait_loop section (signal f' user' ∷ ws) f user =
    resume (section f user) (finished erestartsys f' user' quiet)
wait_loop section (woken f' user' ∷ ws) f user =
    resume (section f user) (wait_loop section ws f' user')

module _ (U : Uaccess) (nonblock : Bool) (buf count : ℕ) where
  unfoldable pub read : List (Wake U.User) → Fifo → U.User → Handled U.User
  read = wait_loop (read_section U nonblock buf count)

  unfoldable pub write : List (Wake U.User) → Fifo → U.User → Handled U.User
  write = wait_loop (write_section U nonblock buf count)

-- Other processes leave the device valid.
abbrev pub KeepValid : {User : Type 0} → List (Wake User) → Type 0
KeepValid [] = Unit
KeepValid (signal f user ∷ ws) = IsValid f × KeepValid ws
KeepValid (woken f user ∷ ws) = IsValid f × KeepValid ws

-- What a non-blocking call must not return, and what a blocking one must not.
abbrev pub MayReturn : Bool → ℤ → Type 0
MayReturn true ret = ret ≢ erestartsys
MayReturn false ret = ret ≢ eagain

MayReturn-other :
    (nonblock : Bool) (ret : ℤ) → ret ≢ eagain → ret ≢ erestartsys → MayReturn nonblock ret
MayReturn-other true ret a b = b
MayReturn-other false ret a b = a

-- Access inside bounds, a valid device afterwards, and a result that the call may return. Only a
-- blocking call may sleep.
abbrev pub IsSafeSection : {User : Type 0} → Bool → Section User → Type 0
IsSafeSection nonblock (fin ret f user s) = IsValid f × MayReturn nonblock ret × (ret ≢ erestartsys)
IsSafeSection nonblock sleep = nonblock ≡ false
IsSafeSection nonblock fault = ⊥

abbrev pub IsSafe : {User : Type 0} → Bool → Handled User → Type 0
IsSafe nonblock (finished ret f user s) = IsValid f × MayReturn nonblock ret
IsSafe nonblock asleep = nonblock ≡ false
IsSafe nonblock broken = ⊥

resume-IsSafe :
    {User : Type 0} (nonblock : Bool) (section : Section User) (next : Handled User)
    → IsSafeSection nonblock section
    → (nonblock ≡ false → IsSafe nonblock next)
    → IsSafe nonblock (resume section next)
unfolding resume
resume-IsSafe nonblock (fin ret f user s) next h k = (h.0, h.1)
resume-IsSafe nonblock sleep next h k = k h
resume-IsSafe nonblock fault next h k = absurd h

wait_loop-IsSafe :
    {User : Type 0} (nonblock : Bool) (section : Fifo → User → Section User)
    → ((f : Fifo) (user : User) → IsValid f → IsSafeSection nonblock (section f user))
    → (ws : List (Wake User)) (f : Fifo) (user : User) → KeepValid ws
    → IsValid f
    → IsSafe nonblock (wait_loop section ws f user)
unfolding wait_loop
wait_loop-IsSafe nonblock section safe [] f user k v =
    resume-IsSafe nonblock (section f user) asleep (safe f user v) (λ e. e)
wait_loop-IsSafe nonblock section safe (signal f' user' ∷ ws) f user k v =
    resume-IsSafe nonblock (section f user) (finished erestartsys f' user' quiet) (safe f user v)
      (λ e. (k.0, rw e (λ b. cc)))
wait_loop-IsSafe nonblock section safe (woken f' user' ∷ ws) f user k v =
    resume-IsSafe nonblock (section f user) (wait_loop section ws f' user') (safe f user v)
      (λ e. wait_loop-IsSafe nonblock section safe ws f' user' k.1 k.0)

IsSafeSection-eq :
    {User : Type 0} (nonblock : Bool) {s s' : Section User}
    → s ≡ s'
    → IsSafeSection nonblock s'
    → IsSafeSection nonblock s
IsSafeSection-eq nonblock e h = rw e h

module _ (U : Uaccess) (buf count : ℕ) (f : Fifo) (user : U.User) (v : IsValid f) where
  -- The branch that has nothing to wait for is safe when its result is.
  waiting-IsSafe :
      (nonblock : Bool)
      → IsSafeSection nonblock (if nonblock then fin eagain f user quiet else sleep)
  waiting-IsSafe true = (v, (λ e. cc), λ e. cc)
  waiting-IsSafe false = refl

  read_ready-IsSafe :
      (nonblock : Bool) → IsSafeSection nonblock (read_ready U nonblock buf count f user)
  read_ready-IsSafe nonblock =
      let copied = U.copy_to_user user buf (take (min count f.current_len) (contents f)) in
      IsSafeSection-eq nonblock (read_ready_lem U nonblock buf count f user v)
        (elim (Bool-cases (copied.0 == 0)) [
          | inl e ↦ rw e (
            taken-IsValid U (min count f.current_len) f v (omega arith),
            MayReturn-other nonblock _ (λ e. cc) (λ e. cc),
            λ e. cc,
          )
          | inr e ↦ rw e (v, MayReturn-other nonblock efault (λ e. cc) (λ e. cc), λ e. cc)
        ])

  write_ready-IsSafe :
      (nonblock : Bool) → IsSafeSection nonblock (write_ready U nonblock buf count f user)
  write_ready-IsSafe nonblock =
      let n = min count (globalfifo_size - f.current_len) in
      let copied = U.copy_from_user user buf (slice f.mem f.current_len n) in
      IsSafeSection-eq nonblock (write_ready_lem U nonblock buf count f user v)
        (elim (Bool-cases (copied.0 == 0)) [
          | inl e ↦ rw e (
            stored-IsValid copied.1 n f v (omega arith),
            MayReturn-other nonblock _ (λ e. cc) (λ e. cc),
            λ e. cc,
          )
          | inr e ↦ rw e (
            omega (arith, length-splice f.mem f.current_len copied.1),
            MayReturn-other nonblock efault (λ e. cc) (λ e. cc),
            λ e. cc,
          )
        ])

  pub read_section-IsSafe :
      (nonblock : Bool) → IsSafeSection nonblock (read_section U nonblock buf count f user)
  unfolding read_section
  read_section-IsSafe nonblock = elim (Bool-cases (f.current_len == 0)) [
    | inl e ↦ rw e (waiting-IsSafe nonblock)
    | inr e ↦ rw e (read_ready-IsSafe nonblock)
  ]

  pub write_section-IsSafe :
      (nonblock : Bool) → IsSafeSection nonblock (write_section U nonblock buf count f user)
  unfolding write_section
  write_section-IsSafe nonblock = elim (Bool-cases (f.current_len == globalfifo_size)) [
    | inl e ↦ rw e (waiting-IsSafe nonblock)
    | inr e ↦ rw e (write_ready-IsSafe nonblock)
  ]

-- For every schedule of wake-ups that leaves the device valid, `read` and `write` access nothing out
-- of bounds and leave it valid. A non-blocking call never sleeps and never returns -ERESTARTSYS, and a
-- blocking call never returns -EAGAIN.
pub read-write-IsSafe :
    (U : Uaccess) (nonblock : Bool) (buf count : ℕ) (ws : List (Wake U.User)) (f : Fifo)
    (user : U.User)
    → KeepValid ws
    → IsValid f
    → IsSafe nonblock (read U nonblock buf count ws f user)
      × IsSafe nonblock (write U nonblock buf count ws f user)
unfolding read write
read-write-IsSafe U nonblock buf count ws f user k v = (
  wait_loop-IsSafe nonblock (read_section U nonblock buf count)
      (λ f user v. read_section-IsSafe U buf count f user v nonblock) ws f user k v,
  wait_loop-IsSafe nonblock (write_section U nonblock buf count)
      (λ f user v. write_section-IsSafe U buf count f user v nonblock) ws f user k v,
)
