-- ===== src/Fifo/Returns.antt =====
-- When the wait loops of code/globalfifo/ch9/globalfifo.c end.
use linux_drivers_study.Prelude.{
  ℕ, ◌-◌, ◌≡◌, ◌≢◌, ◌==◌, min, take, Bool, arith, Bool-cases, inl, inr, List, [], ◌∷◌, ◌++◌, ◌∙◌,
}
use linux_drivers_study.Prelude.Bytes.{slice}
use linux_drivers_study.Kernel.Uaccess.{Uaccess}
use linux_drivers_study.Fifo.{
  Fifo, globalfifo_size, Section, fin, sleep, fault, read_section, write_section, read_ready,
  write_ready,
}
use linux_drivers_study.Fifo.Sections.{IsValid, contents, read_ready_lem, write_ready_lem}
use linux_drivers_study.Fifo.Handlers.{
  Wake, signal, woken, KeepValid, Handled, finished, asleep, broken, resume, wait_loop, read, write,
  IsSafeSection, read_section-IsSafe, write_section-IsSafe,
}

abbrev pub Ends : {User : Type 0} → Section User → Type 0
Ends (fin ret f user s) = Unit
Ends sleep = ⊥
Ends fault = ⊥

abbrev pub Returns : {User : Type 0} → Handled User → Type 0
Returns (finished ret f user s) = Unit
Returns asleep = ⊥
Returns broken = ⊥

resume-Returns :
    {User : Type 0} (nonblock : Bool) (section : Section User) (next : Handled User)
    → IsSafeSection nonblock section
    → Returns next
    → Returns (resume section next)
unfolding resume
resume-Returns nonblock (fin ret f user s) next safe h = tt
resume-Returns nonblock sleep next safe h = h
resume-Returns nonblock fault next safe h = absurd safe

resume-Ends :
    {User : Type 0} (section : Section User) (next : Handled User)
    → Ends section
    → Returns (resume section next)
unfolding resume
resume-Ends (fin ret f user s) next h = tt
resume-Ends sleep next h = absurd h
resume-Ends fault next h = absurd h

module _ {User : Type 0} (nonblock : Bool) (section : Fifo → User → Section User)
    (safe : (f : Fifo) (user : User) → IsValid f → IsSafeSection nonblock (section f user))
    (g : Fifo) (user' : User) (ends : Ends (section g user')) where
  wait_loop-Returns :
      (ws : List (Wake User)) (f : Fifo) (user : User)
      → KeepValid ws
      → IsValid f
      → Returns (wait_loop section (ws ++ (woken g user' ∷ [])) f user)
  unfolding wait_loop
  wait_loop-Returns [] f user k v =
      resume-Returns nonblock (section f user) (resume (section g user') asleep) (safe f user v)
        (resume-Ends (section g user') asleep ends)
  wait_loop-Returns (signal f' u ∷ ws) f user k v =
      resume-Returns nonblock (section f user) _ (safe f user v) tt
  wait_loop-Returns (woken f' u ∷ ws) f user k v =
      resume-Returns nonblock (section f user) _ (safe f user v) (wait_loop-Returns ws f' u k.1 k.0)

Ends-eq : {User : Type 0} {s s' : Section User} → s ≡ s' → Ends s' → Ends s
Ends-eq e h = rw e h

module _ (U : Uaccess) (nonblock : Bool) (buf count : ℕ) (f : Fifo) (user : U.User)
    (v : IsValid f) where
  read-Ends : f.current_len ≢ 0 → Ends (read_section U nonblock buf count f user)
  unfolding read_section
  read-Ends some_left =
      let past : read_section U nonblock buf count f user ≡ read_ready U nonblock buf count f user =
        ground arith in
      let copied = U.copy_to_user user buf (take (min count f.current_len) (contents f)) in
      Ends-eq (past ∙ read_ready_lem U nonblock buf count f user v)
        (elim (Bool-cases (copied.0 == 0)) [ inl e ↦ rw e tt | inr e ↦ rw e tt ])

  write-Ends : f.current_len ≢ globalfifo_size → Ends (write_section U nonblock buf count f user)
  unfolding write_section
  write-Ends room =
      let past : write_section U nonblock buf count f user
          ≡ write_ready U nonblock buf count f user =
        ground arith in
      let n = min count (globalfifo_size - f.current_len) in
      let copied = U.copy_from_user user buf (slice f.mem f.current_len n) in
      Ends-eq (past ∙ write_ready_lem U nonblock buf count f user v)
        (elim (Bool-cases (copied.0 == 0)) [ inl e ↦ rw e tt | inr e ↦ rw e tt ])

-- After any valid schedule, a read that is woken beside a device that is not empty returns, and so does a
-- write that is woken beside a device that is not full, at that wake-up or before.
pub woken-Returns :
    (U : Uaccess) (nonblock : Bool) (buf count : ℕ) (ws : List (Wake U.User)) (f filled room : Fifo)
    (user user' : U.User)
    → KeepValid ws
    → IsValid f
    → IsValid filled
    → IsValid room
    → filled.current_len ≢ 0
    → room.current_len ≢ globalfifo_size
    → Returns (read U nonblock buf count (ws ++ (woken filled user' ∷ [])) f user)
      × Returns (write U nonblock buf count (ws ++ (woken room user' ∷ [])) f user)
unfolding read write
woken-Returns U nonblock buf count ws f filled room user user' k v filled_valid room_valid some_left
      some_room =
    (
      wait_loop-Returns nonblock (read_section U nonblock buf count)
          (λ f user v. read_section-IsSafe U buf count f user v nonblock) filled user'
          (read-Ends U nonblock buf count filled user' filled_valid some_left) ws f user k v,
      wait_loop-Returns nonblock (write_section U nonblock buf count)
          (λ f user v. write_section-IsSafe U buf count f user v nonblock) room user'
          (write-Ends U nonblock buf count room user' room_valid some_room) ws f user k v,
    )
