-- ===== src/Fifo/System/Reachable.antt =====
-- The reachable states of code/globalfifo/ch9/globalfifo.c with any number of callers.
use linux_drivers_study.Prelude.{
  ℕ, ◌≡◌, Bool, false, List, [], ◌++◌, arith, refl, ◌≤◌, replicate, length-replicate,
}
use linux_drivers_study.Kernel.Uaccess.{Uaccess, IsLawful, CopiesUp}
use linux_drivers_study.Fifo.{Fifo, globalfifo_size}
use linux_drivers_study.Fifo.Sections.{contents}
use linux_drivers_study.Fifo.System.{
  Request, reading, writing, Pc, idle, ready, asleep, System, Sections, Reach, start, later,
}
use linux_drivers_study.Fifo.System.Moves.{Agrees}
use linux_drivers_study.Fifo.System.Invariant.{Inv, Step-Inv}

-- The device that kzalloc gives, with every process outside the driver.
abbrev pub loaded : (User : Type 0) → List ℕ → System User
loaded User async = record {
  fifo = record { current_len = 0; mem = replicate globalfifo_size 0; async_queue = async };
  pc = λ i. idle;
  written = [];
  delivered = [];
}

loaded-Inv :
    (U : Uaccess) (D : Sections U) (clears : Bool) (async : List ℕ)
    → Inv U D clears (loaded U.User async)
loaded-Inv U D clears async = record {
  valid = omega (arith, length-replicate {A = ℕ} globalfifo_size 0);
  readers = λ i r e. cc;
  writers = λ i r quiet e. cc;
  queue = λ up quiet. refl;
}

pub Reach-Inv :
    (U : Uaccess) (D : Sections U) (clears : Bool) (async : List ℕ)
    → IsLawful U
    → Agrees U D
    → {s : System U.User} → Reach U D clears (loaded U.User async) s
    → Inv U D clears s
Reach-Inv U D clears async lawful agrees start = loaded-Inv U D clears async
Reach-Inv U D clears async lawful agrees (later r st) =
    Step-Inv U D clears lawful agrees st (Reach-Inv U D clears async lawful agrees r)

-- With a memcpy that copies upwards and without FIFO_CLEAR, however readers and writers are interleaved, interrupted or fail: the bytes that
-- writers sent, in the order of their calls, are the bytes that readers got and then those that the
-- device holds, of which there are at most its size.
pub written-eq-delivered :
    (U : Uaccess) (D : Sections U) (async : List ℕ)
    → IsLawful U
    → CopiesUp U
    → Agrees U D
    → {s : System U.User} → Reach U D false (loaded U.User async) s
    → (s.written ≡ s.delivered ++ contents s.fifo) × (s.fifo.current_len ≤ globalfifo_size)
written-eq-delivered U D async lawful up agrees r =
    let inv = Reach-Inv U D false async lawful agrees r in (inv.queue up refl, inv.valid.inside)

-- What a sleeper waits for is still so: an empty device for `read`, a full one for `write`.
abbrev pub HasReason : {User : Type 0} → Fifo → Pc User → Type 0
HasReason f (asleep (reading r)) = f.current_len ≡ 0
HasReason f (asleep (writing r)) = f.current_len ≡ globalfifo_size
HasReason f idle = Unit
HasReason f (ready slept c) = Unit

HasReason_lem :
    {User : Type 0} (f : Fifo) (pc : Pc User)
    → ((r : Request User) → pc ≡ asleep (reading r) → f.current_len ≡ 0)
    → ((r : Request User) → pc ≡ asleep (writing r) → f.current_len ≡ globalfifo_size)
    → HasReason f pc
HasReason_lem f (asleep (reading r)) reads writes = reads r refl
HasReason_lem f (asleep (writing r)) reads writes = writes r refl
HasReason_lem f idle reads writes = tt
HasReason_lem f (ready slept c) reads writes = tt

-- No wake-up is lost without FIFO_CLEAR: in every reachable state, whoever sleeps in `read` sleeps on an
-- empty device and whoever sleeps in `write` on a full one.
pub sleepers_have_reason :
    (U : Uaccess) (D : Sections U) (async : List ℕ)
    → IsLawful U
    → Agrees U D
    → {s : System U.User} → Reach U D false (loaded U.User async) s
    → (i : ℕ) → HasReason s.fifo (s.pc i)
sleepers_have_reason U D async lawful agrees {s} r i =
    let inv = Reach-Inv U D false async lawful agrees r in
    HasReason_lem s.fifo (s.pc i) (inv.readers i) (λ req. inv.writers i req refl)

-- Where FIFO_CLEAR may be issued too, a reader sleeps only on an empty device in every reachable state.
pub readers_have_reason :
    (U : Uaccess) (D : Sections U) (clears : Bool) (async : List ℕ)
    → IsLawful U
    → Agrees U D
    → {s : System U.User} → Reach U D clears (loaded U.User async) s
    → (i : ℕ) (r : Request U.User) → s.pc i ≡ asleep (reading r)
    → s.fifo.current_len ≡ 0
readers_have_reason U D clears async lawful agrees r i req =
    (Reach-Inv U D clears async lawful agrees r).readers i req
