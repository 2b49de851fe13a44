-- ===== src/Fifo/Notify.antt =====
-- `globalfifo_fasync` and `globalfifo_release` of code/globalfifo/ch9/globalfifo.c among the other
-- calls: which files a write signals.
use linux_drivers_study.Prelude.{
  member, ℕ, ◌≡◌, ◌==◌, if◌then◌else◌, Bool, false, List, [], ◌∷◌, arith, refl, ◌∙◌, Option, none,
  some, Bool-cases, inl, inr, ap,
}
use linux_drivers_study.Prelude.Int.{ℤ, pos, negsuc, is_negative}
use linux_drivers_study.Kernel.Uaccess.{Uaccess}
use linux_drivers_study.Kernel.Fasync.{Fasync, IsLawful}
use linux_drivers_study.Fifo.{
  Fifo, Signals, Section, fin, sleep, fault, clear, fasync, release, read_section, write_section,
  read_ready, write_ready, ioctl,
}
use linux_drivers_study.Fifo.System.{Request, Call, reading, writing, section}

-- A call on an open file of the device. A `read` or `write` is one of its locked sections.
pub data Action (User : Type 0) : Type 0 where
  fcntl : (fd : ℤ) (filp : ℕ) (mode : Bool) → Action User
  close : (filp : ℕ) → Action User
  transfer : Call User → Action User
  control : (cmd : ℕ) → Action User

-- What a section returned, if its call came to an end, and the device after it; one that sleeps has
-- not touched it.
unfoldable pub answer : {User : Type 0} → Section User → Option ℤ
answer (fin ret f' user sig) = some ret
answer sleep = none
answer fault = none

unfoldable pub fifo_after : {User : Type 0} → Section User → Fifo → Fifo
fifo_after (fin ret f' user sig) f = f'
fifo_after sleep f = f
fifo_after fault f = f

module _ (U : Uaccess) (K : Fasync) where
  -- What the caller of `fcntl` is told, and the device.
  unfoldable pub act : Action U.User → Fifo → Option ℤ × Fifo
  act (fcntl fd filp mode) f = let (ret, f') = fasync K filp fd mode f in (some ret, f')
  act (close filp) f = let (ret, f') = release K filp f in (some ret, f')
  act (transfer c) f = (answer (section U c f), fifo_after (section U c f) f)
  act (control cmd) f = (some (ioctl cmd f).ret, (ioctl cmd f).fifo)

  abbrev pub device_after : List (Action U.User) → Fifo → Fifo
  device_after [] f = f
  device_after (a ∷ rest) f = device_after rest (act a f).1

  -- The calls with what they returned.
  abbrev pub trace : List (Action U.User) → Fifo → List (Action U.User × Option ℤ)
  trace [] f = []
  trace (a ∷ rest) f = (a, (act a f).0) ∷ trace rest (act a f).1

-- Whether a file wants SIGIO, from the calls and their results alone: its last `fcntl` without an
-- error decides, and `close` ends it.
abbrev pub last_request : {User : Type 0} → ℕ → List (Action User × Option ℤ) → Bool → Bool
last_request other [] b = b
last_request other ((fcntl fd filp mode, some ret) ∷ rest) b =
    last_request other rest (if is_negative ret then b else if filp == other then mode else b)
last_request other ((fcntl fd filp mode, none) ∷ rest) b = last_request other rest b
last_request other ((close filp, ret) ∷ rest) b =
    last_request other rest (if filp == other then false else b)
last_request other ((transfer c, ret) ∷ rest) b = last_request other rest b
last_request other ((control cmd, ret) ∷ rest) b = last_request other rest b

section_keeps_queue :
    (U : Uaccess) (c : Call U.User) (f : Fifo)
    → (fifo_after (section U c f) f).async_queue ≡ f.async_queue
unfolding section fifo_after read_section write_section read_ready write_ready
section_keeps_queue U (reading r) f = ground arith
section_keeps_queue U (writing r) f = ground arith

module _ (U : Uaccess) (K : Fasync) (lawful : IsLawful K) (other : ℕ) where
  fcntl_lem :
      (fd : ℤ) (filp : ℕ) (mode : Bool) (f : Fifo)
      → member other (fasync K filp fd mode f).1.async_queue ≡ (
          if is_negative (fasync K filp fd mode f).0
          then member other f.async_queue
          else if filp == other
          then mode
          else member other f.async_queue)
  unfolding fasync
  fcntl_lem fd filp mode f =
      elim (Bool-cases (is_negative (K.helper fd filp mode f.async_queue).0)) [
        | inl bad ↦ rw bad (ap (member other) (lawful.refused fd filp mode f.async_queue bad))
        | inr ok ↦ rw ok (lawful.applied fd filp mode f.async_queue other ok)
      ]

  release_lem :
      (filp : ℕ) (f : Fifo)
      → member other (release K filp f).1.async_queue
        ≡ (if filp == other then false else member other f.async_queue)
  unfolding release fasync
  release_lem filp f =
      lawful.applied (negsuc 0) filp false f.async_queue other
        (lawful.taken_off (negsuc 0) filp f.async_queue)

  ioctl_keeps_queue : (cmd : ℕ) (f : Fifo) → (ioctl cmd f).fifo.async_queue ≡ f.async_queue
  unfolding ioctl clear
  ioctl_keeps_queue cmd f = ground arith

  -- After any history of calls a file is on the device's list exactly if its last request that the
  -- kernel accepted asked for SIGIO and it was not closed since.
  async_queue-last_request :
      (history : List (Action U.User)) (f : Fifo)
      → member other (device_after U K history f).async_queue
        ≡ last_request other (trace U K history f) (member other f.async_queue)
  unfolding act
  async_queue-last_request [] f = refl
  async_queue-last_request (fcntl fd filp mode ∷ rest) f =
      async_queue-last_request rest (fasync K filp fd mode f).1
      ∙ ap (last_request other (trace U K rest (fasync K filp fd mode f).1))
          (fcntl_lem fd filp mode f)
  async_queue-last_request (close filp ∷ rest) f =
      async_queue-last_request rest (release K filp f).1
      ∙ ap (last_request other (trace U K rest (release K filp f).1)) (release_lem filp f)
  async_queue-last_request (transfer c ∷ rest) f =
      let f' = fifo_after (section U c f) f in
      async_queue-last_request rest f'
      ∙ ap (λ (q : List ℕ). last_request other (trace U K rest f') (member other q))
          (section_keeps_queue U c f)
  async_queue-last_request (control cmd ∷ rest) f =
      let f' = (ioctl cmd f).fifo in
      async_queue-last_request rest f'
      ∙ ap (λ (q : List ℕ). last_request other (trace U K rest f') (member other q))
          (ioctl_keeps_queue cmd f)

  -- A write that stored bytes signals the device's list.
  written_sigio :
      (r : Request U.User) (f f' : Fifo) (n : ℕ) (user : U.User) (sig : Signals)
      → section U (writing r) f ≡ fin (pos n) f' user sig
      → sig.sigio ≡ f.async_queue
  unfolding section write_section write_ready
  written_sigio r f f' n user sig e = ground (arith, e)

  -- Whatever calls came before, a write that stores bytes sends SIGIO to exactly the open files whose last
  -- `fcntl` that the kernel accepted asked for it, and that were not closed since.
  pub sigio-iff_asked :
      (history : List (Action U.User)) (f f' : Fifo) (r : Request U.User) (n : ℕ) (user : U.User)
      (sig : Signals)
      → section U (writing r) (device_after U K history f) ≡ fin (pos n) f' user sig
      → member other sig.sigio
        ≡ last_request other (trace U K history f) (member other f.async_queue)
  sigio-iff_asked history f f' r n user sig e =
      ap (member other) (written_sigio r (device_after U K history f) f' n user sig e)
      ∙ async_queue-last_request history f
