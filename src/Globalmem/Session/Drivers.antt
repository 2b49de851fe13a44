-- ===== src/Globalmem/Session/Drivers.antt =====
-- The driver of code/ch6/globalmem.c behind the interface of Globalmem.Session.
use linux_drivers_study.Prelude.{
  ℕ, ◌≡◌, ◌≤◌, ◌<◌, ◌-◌, ◌+◌, ◌^◌, ◌==◌, arith, length, List, inl, inr, refl, Bool-cases, leb,
  length-replicate, if◌then◌else◌,
}
use linux_drivers_study.Prelude.Bytes.{slice, splice, length-splice}
use linux_drivers_study.Prelude.Int.{ℤ, pos, negsuc, to_u64}
use linux_drivers_study.Kernel.Errno.{efault}
use linux_drivers_study.Kernel.Outcome.{Outcome, done}
use linux_drivers_study.Kernel.Uaccess.{Uaccess}
use linux_drivers_study.Seek.{InDevice, llseek-InDevice}
use linux_drivers_study.Globalmem
use linux_drivers_study.Globalmem.{Task, globalmem_size, clear}
use linux_drivers_study.Globalmem.Valid.{moved}
use linux_drivers_study.Globalmem.Read.{read_lem, read_at_end}
use linux_drivers_study.Globalmem.Write.{write_lem}
use linux_drivers_study.Globalmem.Session.{
  MemoryDriver, IsSound, Keeps, IsSafe, Call, Session, IsValid, Allowed, IsComplete, run,
}
use linux_drivers_study.Globalmem.Session.Safe.{run-IsComplete}

abbrev pub globalmem_driver : (U : Uaccess) → MemoryDriver U.User
globalmem_driver U = record {
  ioctl = Globalmem.ioctl;
  llseek = Globalmem.llseek;
  read = Globalmem.read U;
  write = Globalmem.write U;
}

-- The largest value of a loff_t.
abbrev pub largest : ℕ
largest = 2 ^ 63 - 1

pub Keeps-eq :
    {User : Type 0} (t : Task User) {o o' : Outcome (Task User) ℤ} → o ≡ o' → Keeps t o' → Keeps t o
Keeps-eq t e k = rw e k

pub llseek-Keeps :
    {User : Type 0} (offset : ℤ) (orig : ℕ) (t : Task User)
    → IsSound t
    → InDevice globalmem_size t.f_pos
    → Keeps t (Globalmem.llseek offset orig t)
unfolding Globalmem.llseek
llseek-Keeps offset orig t sound inside =
    (sound, inl (llseek-InDevice globalmem_size t.f_pos offset orig inside).0)

module _ (U : Uaccess) (buf size p : ℕ) (t : Task U.User) (sound : IsSound t)
    (at : t.f_pos ≡ pos p) where
  -- What a transfer of bytes up to `p + n` leaves, on success and on a fault.
  pub transfer-Keeps :
      (t' : Task U.User) (n left : ℕ)
      → IsSound t'
      → t'.f_pos ≡ pos p
      → p + n ≤ globalmem_size
      → Keeps t
          (if left == 0 then done (pos n) (record t' { f_pos = pos (p + n) }) else done efault t')
  transfer-Keeps t' n left sound' at' h = elim (Bool-cases (left == 0)) [
    | inl e ↦ rw e (sound', inl h)
    | inr e ↦ rw e (sound', inr (rw (at, at') refl))
  ]

  read_inside : p < globalmem_size → Keeps t (Globalmem.read U buf size t)
  read_inside h =
      let n = moved p size in
      let copied = U.copy_to_user t.user buf (slice t.mem p n) in
      Keeps-eq t (read_lem U buf size p t sound.0 at h)
        (transfer-Keeps (record t { user = copied.1 }) n copied.0 sound at (omega arith))

  write_inside : p < globalmem_size → Keeps t (Globalmem.write U buf size t)
  write_inside h =
      let n = moved p size in
      let copied = U.copy_from_user t.user buf (slice t.mem p n) in
      Keeps-eq t (write_lem U buf size p t sound.0 at h) (
        transfer-Keeps (record t { mem = splice t.mem p copied.1 }) n copied.0
          (omega (arith, length-splice t.mem p copied.1, sound.0), sound.1) at (omega arith))

ioctl-Keeps :
    {User : Type 0} (cmd : ℕ) (t : Task User) → IsSound t → Keeps t (Globalmem.ioctl cmd t)
unfolding Globalmem.ioctl clear
ioctl-Keeps cmd t sound = elim (Bool-cases (cmd == 0x1)) [
  | inl e ↦ rw e ((length-replicate globalmem_size 0, sound.1), inr refl)
  | inr e ↦ rw e (sound, inr refl)
]

write_at_end :
    (U : Uaccess) (buf size : ℕ) (t : Task U.User)
    → globalmem_size ≤ to_u64 t.f_pos
    → Globalmem.write U buf size t ≡ done (pos 0) t
unfolding Globalmem.write
write_at_end U buf size t h = ground arith

-- A read or write at any position, from what it does inside the device and past its end.
at_position :
    {User : Type 0} (t : Task User) (o : Outcome (Task User) ℤ)
    → IsSound t
    → ((p : ℕ) → t.f_pos ≡ pos p → p < globalmem_size → Keeps t o)
    → (globalmem_size ≤ to_u64 t.f_pos → o ≡ done (pos 0) t)
    → (z : ℤ) → t.f_pos ≡ z
    → InDevice largest z
    → Keeps t o
at_position t o sound inside past (negsuc n) at h = absurd h
at_position t o sound inside past (pos p) at h = elim (Bool-cases (leb globalmem_size p)) [
  | inl e ↦ Keeps-eq t (past (ground (arith, at, e, h))) (sound, inr refl)
  | inr e ↦ inside p at (ground (arith, e))
]

globalmem_driver-IsSafe : (U : Uaccess) → IsSafe (globalmem_driver U) largest
globalmem_driver-IsSafe U = record {
  ioctl_keeps = ioctl-Keeps;
  llseek_keeps = llseek-Keeps;
  read_keeps = λ buf size t sound h.
      at_position t (Globalmem.read U buf size t) sound
        (λ p at. read_inside U buf size p t sound at) (read_at_end U buf size t) t.f_pos refl h;
  write_keeps = λ buf size t sound h.
      at_position t (Globalmem.write U buf size t) sound
        (λ p at. write_inside U buf size p t sound at) (write_at_end U buf size t) t.f_pos refl h;
}

-- Whatever calls any processes make on any open files of the device, MEM_CLEAR, seeks, reads, writes, and
-- pread and pwrite at any 64-bit position: each comes to an end, none accesses anything outside the memory,
-- and all positions stay in the device.
pub globalmem_session :
    (U : Uaccess) (cs : List (Call U.User)) (s : Session)
    → IsValid s
    → Allowed largest cs
    → IsComplete (length cs) (run (globalmem_driver U) cs s)
globalmem_session U cs s v a =
    run-IsComplete (globalmem_driver U) largest (globalmem_driver-IsSafe U) (omega arith) cs s v a
