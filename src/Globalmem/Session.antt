-- ===== src/Globalmem/Session.antt =====
-- Many open files of one memory device, and any calls on them: the interface that the drivers of
-- code/ch6/globalmem.c and code/ch6/tdlcd.c fill, and what holds of every session with one of them.
pub mod Safe
pub mod Drivers
use linux_drivers_study.Prelude.{
  ℕ, ◌≡◌, ◌≤◌, ◌⊎◌, ◌==◌, if◌then◌else◌, Bool, true, false, List, [], ◌∷◌, arith, length, inl, inr,
}
use linux_drivers_study.Prelude.Bytes.{Bytes}
use linux_drivers_study.Prelude.Int.{ℤ, pos, negsuc}
use linux_drivers_study.Kernel.Outcome.{Outcome, done, blocked, misuse, fault, M, pure, ◌>>=◌}
use linux_drivers_study.Kernel.Uaccess.{Uaccess}
use linux_drivers_study.Seek.{InDevice}
use linux_drivers_study.Globalmem.{Task, globalmem_size}

pub record MemoryDriver (User : Type 0) : Type 0 where
  pub ioctl : ℕ → M (Task User) ℤ
  pub llseek : ℤ → ℕ → M (Task User) ℤ
  pub read : (buf size : ℕ) → M (Task User) ℤ
  pub write : (buf size : ℕ) → M (Task User) ℤ

-- A call of pread or pwrite works on the position that it is given and not on that of the file.
pub data Op : Type 0 where
  control : (cmd : ℕ) → Op
  seek : (offset : ℤ) (orig : ℕ) → Op
  read write : (buf size : ℕ) → Op
  pread pwrite : (at buf size : ℕ) → Op

-- A call on the open file `file` by a process with the memory `user`.
pub record Call (User : Type 0) : Type 0 where
  pub file : ℕ
  pub user : User
  pub op : Op

-- The device, and the position of each open file.
pub record Session : Type 0 where
  pub mem : Bytes
  pub held : Bool
  pub positions : ℕ → ℤ

-- The whole memory, the mutex free.
abbrev pub IsSound : {User : Type 0} → Task User → Type 0
IsSound t = (length t.mem ≡ globalmem_size) × (t.held ≡ false)

-- The handler comes to an end and leaves the device sound, and the position in the device or as it was.
abbrev pub Keeps : {User : Type 0} → Task User → Outcome (Task User) ℤ → Type 0
Keeps t (done ret t') = IsSound t' × (InDevice globalmem_size t'.f_pos ⊎ (t'.f_pos ≡ t.f_pos))
Keeps t _ = ⊥

-- What a client may rely on: each call keeps the device, a read or write if its position is at most `limit`.
pub record IsSafe {User : Type 0} (D : MemoryDriver User) (limit : ℕ) : Type 0 where
  pub ioctl_keeps : (cmd : ℕ) (t : Task User) → IsSound t → Keeps t (D.ioctl cmd t)
  pub llseek_keeps :
      (offset : ℤ) (orig : ℕ) (t : Task User)
      → IsSound t
      → InDevice globalmem_size t.f_pos
      → Keeps t (D.llseek offset orig t)
  pub read_keeps :
      (buf size : ℕ) (t : Task User)
      → IsSound t
      → InDevice limit t.f_pos
      → Keeps t (D.read buf size t)
  pub write_keeps :
      (buf size : ℕ) (t : Task User)
      → IsSound t
      → InDevice limit t.f_pos
      → Keeps t (D.write buf size t)

module _ {User : Type 0} (D : MemoryDriver User) where
  unfoldable pub handler : Op → M (Task User) ℤ
  handler (control cmd) = D.ioctl cmd
  handler (seek offset orig) = D.llseek offset orig
  handler (read buf size) = D.read buf size
  handler (write buf size) = D.write buf size
  handler (pread at buf size) = D.read buf size
  handler (pwrite at buf size) = D.write buf size

abbrev pub start_position : Op → ℤ → ℤ
start_position (pread at buf size) f_pos = pos at
start_position (pwrite at buf size) f_pos = pos at
start_position _ f_pos = f_pos

-- The position of the file afterwards, from where the handler left its own.
abbrev pub end_position : Op → ℤ → ℤ → ℤ
end_position (pread at buf size) f_pos left = f_pos
end_position (pwrite at buf size) f_pos left = f_pos
end_position _ f_pos left = left

-- The session after a call, from how its handler ended.
abbrev pub settle :
    {User : Type 0} → Call User → Session → Outcome (Task User) ℤ → Outcome Session ℤ
settle c s (done ret t) = done ret (record {
  mem = t.mem;
  held = t.held;
  positions = λ file.
      if file == c.file then end_position c.op (s.positions c.file) t.f_pos else s.positions file;
})
settle c s blocked = blocked
settle c s misuse = misuse
settle c s fault = fault

module _ {User : Type 0} (D : MemoryDriver User) where
  -- What the handler of a call sees.
  abbrev pub task : Call User → Session → Task User
  task c s = record {
    mem = s.mem;
    held = s.held;
    f_pos = start_position c.op (s.positions c.file);
    user = c.user;
  }

  unfoldable pub call : Call User → M Session ℤ
  call c s = settle c s (handler D c.op (task c s))

  -- The results of the calls, in their order, as far as each comes to an end.
  unfoldable pub run : List (Call User) → M Session (List ℤ)
  run [] s = done [] s
  run (c ∷ cs) s = (do ret ← call c; rets ← run cs; pure (ret ∷ rets)) s

-- The whole memory, the mutex free, and every file's position in the device.
pub record IsValid (s : Session) : Type 0 where
  pub whole : length s.mem ≡ globalmem_size
  pub free : s.held ≡ false
  pub inside : (file : ℕ) → InDevice globalmem_size (s.positions file)

-- Positions that pread and pwrite are given are at most `limit`.
abbrev pub Allowed : {User : Type 0} → ℕ → List (Call User) → Type 0
Allowed limit [] = Unit
Allowed limit (c ∷ cs) = InDevice limit (start_position c.op (pos 0)) × Allowed limit cs

-- All calls came to an end, `n` of them, and the session is valid.
abbrev pub IsComplete : ℕ → Outcome Session (List ℤ) → Type 0
IsComplete n (done rets s) = IsValid s × (length rets ≡ n)
IsComplete n _ = ⊥

abbrev pub CallIsComplete : Outcome Session ℤ → Type 0
CallIsComplete (done ret s) = IsValid s
CallIsComplete _ = ⊥
