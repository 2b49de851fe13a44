-- ===== src/Globalmem/Session/Safe.antt =====
-- Sessions with a memory device whose driver keeps the interface of Globalmem.Session.
use linux_drivers_study.Prelude.{
  ℕ, ◌≡◌, ◌≤◌, ◌⊎◌, ◌==◌, List, [], ◌∷◌, arith, refl, Bool-cases, length, suc, ap, inl, inr,
}
use linux_drivers_study.Prelude.Int.{ℤ, pos, negsuc}
use linux_drivers_study.Kernel.Outcome.{Outcome, done, blocked, misuse, fault, M, pure, ◌>>=◌}
use linux_drivers_study.Seek.{InDevice}
use linux_drivers_study.Globalmem.{Task, globalmem_size}
use linux_drivers_study.Globalmem.Session.{
  MemoryDriver, Op, control, seek, read, write, pread, pwrite, Call, Session, IsSound, Keeps,
  IsSafe, handler, start_position, end_position, settle, task, call, run, IsValid, Allowed,
  IsComplete, CallIsComplete,
}

last-IsComplete :
    (n : ℕ) (ret : ℤ) (o : Outcome Session (List ℤ)) (s : Session)
    → IsComplete n o
    → IsComplete (suc n) (((λ _. o) >>= λ rets. pure (ret ∷ rets)) s)
last-IsComplete n ret (done rets s') s k = (k.0, ap suc k.1)
last-IsComplete n ret blocked s k = absurd k
last-IsComplete n ret misuse s k = absurd k
last-IsComplete n ret fault s k = absurd k

-- A call that comes to an end, before calls that do.
first-IsComplete :
    (n : ℕ) (o : Outcome Session ℤ) (rest : M Session (List ℤ)) (s : Session)
    → CallIsComplete o
    → ((s' : Session) → IsValid s' → IsComplete n (rest s'))
    → IsComplete (suc n) (((λ _. o) >>= λ ret. (rest >>= λ rets. pure (ret ∷ rets))) s)
first-IsComplete n (done ret s') rest s k all = last-IsComplete n ret (rest s') s' (all s' k)
first-IsComplete n blocked rest s k all = absurd k
first-IsComplete n misuse rest s k all = absurd k
first-IsComplete n fault rest s k all = absurd k

module _ {User : Type 0} (D : MemoryDriver User) (limit : ℕ) (safe : IsSafe D limit)
    (large : globalmem_size ≤ limit) where
  within : (z : ℤ) → InDevice globalmem_size z → InDevice limit z
  within (pos n) h = omega (arith, h)
  within (negsuc n) h = h

  handler-Keeps :
      (op : Op) (t : Task User) (f_pos : ℤ)
      → IsSound t
      → InDevice globalmem_size f_pos
      → InDevice limit (start_position op (pos 0))
      → t.f_pos ≡ start_position op f_pos
      → Keeps t (handler D op t)
  unfolding handler
  handler-Keeps (control cmd) t f_pos sound inside allowed at = safe.ioctl_keeps cmd t sound
  handler-Keeps (seek offset orig) t f_pos sound inside allowed at =
      safe.llseek_keeps offset orig t sound (rw at inside)
  handler-Keeps (read buf size) t f_pos sound inside allowed at =
      safe.read_keeps buf size t sound (rw at (within f_pos inside))
  handler-Keeps (write buf size) t f_pos sound inside allowed at =
      safe.write_keeps buf size t sound (rw at (within f_pos inside))
  handler-Keeps (pread p buf size) t f_pos sound inside allowed at =
      safe.read_keeps buf size t sound (rw at allowed)
  handler-Keeps (pwrite p buf size) t f_pos sound inside allowed at =
      safe.write_keeps buf size t sound (rw at allowed)

  settled :
      (f_pos left : ℤ)
      → InDevice globalmem_size f_pos
      → (InDevice globalmem_size left) ⊎ (left ≡ f_pos)
      → InDevice globalmem_size left
  settled f_pos left h (inl inside) = inside
  settled f_pos left h (inr same) = rw same h

  end_inside :
      (op : Op) (f_pos left : ℤ)
      → InDevice globalmem_size f_pos
      → (InDevice globalmem_size left) ⊎ (left ≡ start_position op f_pos)
      → InDevice globalmem_size (end_position op f_pos left)
  end_inside (control cmd) f_pos left h k = settled f_pos left h k
  end_inside (seek offset orig) f_pos left h k = settled f_pos left h k
  end_inside (read buf size) f_pos left h k = settled f_pos left h k
  end_inside (write buf size) f_pos left h k = settled f_pos left h k
  end_inside (pread p buf size) f_pos left h k = h
  end_inside (pwrite p buf size) f_pos left h k = h

  settle-IsComplete :
      (c : Call User) (s : Session) (o : Outcome (Task User) ℤ)
      → IsValid s
      → Keeps (task D c s) o
      → CallIsComplete (settle c s o)
  settle-IsComplete c s (done ret t) v k = record {
    whole = k.0.0;
    free = k.0.1;
    inside = λ file. elim (Bool-cases (file == c.file)) [
      | inl same ↦ rw same (end_inside c.op (s.positions c.file) t.f_pos (v.inside c.file) k.1)
      | inr other ↦ rw other (v.inside file)
    ];
  }
  settle-IsComplete c s blocked v k = absurd k
  settle-IsComplete c s misuse v k = absurd k
  settle-IsComplete c s fault v k = absurd k

  call-IsComplete :
      (c : Call User) (s : Session)
      → IsValid s
      → InDevice limit (start_position c.op (pos 0))
      → CallIsComplete (call D c s)
  unfolding call
  call-IsComplete c s v allowed = settle-IsComplete c s (handler D c.op (task D c s)) v (
      handler-Keeps c.op (task D c s) (s.positions c.file) (v.whole, v.free) (v.inside c.file)
        allowed refl)

  -- Any calls on any open files of a driver that keeps the interface come to an end, one after the other,
  -- and leave the session valid, as long as pread and pwrite keep to the positions that the driver allows.
  pub run-IsComplete :
      (cs : List (Call User)) (s : Session)
      → IsValid s
      → Allowed limit cs
      → IsComplete (length cs) (run D cs s)
  unfolding run
  run-IsComplete [] s v a = (v, refl)
  run-IsComplete (c ∷ cs) s v a =
      first-IsComplete (length cs) (call D c s) (run D cs) s (call-IsComplete c s v a.0)
        (λ s' v'. run-IsComplete cs s' v' a.1)
