-- ===== src/Tdlcd/Session.antt =====
-- The driver of code/ch6/tdlcd.c behind the interface of Globalmem.Session, where reads and writes keep
-- to positions up to the end of the memory.
use linux_drivers_study.Prelude.{
  ℕ, ◌≡◌, ◌≤◌, ◌+◌, ◌==◌, arith, length, List, inl, inr, refl, Bool-cases, length-replicate,
  if◌then◌else◌, true,
}
use linux_drivers_study.Prelude.Bytes.{slice, splice, length-splice}
use linux_drivers_study.Prelude.Int.{ℤ, pos, negsuc}
use linux_drivers_study.Kernel.Errno.{efault}
use linux_drivers_study.Kernel.Outcome.{Outcome, done}
use linux_drivers_study.Kernel.Uaccess.{Uaccess}
use linux_drivers_study.Seek.{InDevice}
use linux_drivers_study.Globalmem.{Task, clear}
use linux_drivers_study.Globalmem.Valid.{moved, clip_lem, to_u64-pos, add_s64-pos}
use linux_drivers_study.Globalmem.Read.{copy_out_lem}
use linux_drivers_study.Globalmem.Write.{copy_in_lem}
use linux_drivers_study.Globalmem.Locked.{mutex_lock, mutex_unlock}
use linux_drivers_study.Globalmem.Session.{
  MemoryDriver, IsSound, Keeps, IsSafe, Call, Session, IsValid, Allowed, IsComplete, run,
}
use linux_drivers_study.Globalmem.Session.Safe.{run-IsComplete}
use linux_drivers_study.Globalmem.Session.Drivers.{Keeps-eq, llseek-Keeps, transfer-Keeps}
use linux_drivers_study.Tdlcd
use linux_drivers_study.Tdlcd.{size}

abbrev pub tdlcd_driver : (U : Uaccess) → MemoryDriver U.User
tdlcd_driver U = record {
  ioctl = Tdlcd.ioctl;
  llseek = Tdlcd.llseek;
  read = Tdlcd.read U;
  write = Tdlcd.write U;
}

ioctl-Keeps : {User : Type 0} (cmd : ℕ) (t : Task User) → IsSound t → Keeps t (Tdlcd.ioctl cmd t)
unfolding Tdlcd.ioctl clear mutex_lock mutex_unlock
ioctl-Keeps cmd t sound = elim (Bool-cases (cmd == 0x1)) [
  | inl e ↦ rw (e, sound.1) ((length-replicate size 0, refl), inr refl)
  | inr e ↦ rw e (sound, inr refl)
]

module _ (U : Uaccess) (buf count p : ℕ) (t : Task U.User) (sound : IsSound t)
    (at : t.f_pos ≡ pos p) (inside : p ≤ size) where
  read_up_to_end :
      let n = moved p count in
      let copied = U.copy_to_user t.user buf (slice t.mem p n) in
      Tdlcd.read U buf count t ≡ (
        if copied.0 == 0
        then done (pos n) (record t { user = copied.1; f_pos = pos (p + n) })
        else done efault (record t { user = copied.1 }))
  unfolding Tdlcd.read mutex_lock mutex_unlock
  read_up_to_end = ground (
    arith,
    clip_lem p count,
    to_u64-pos p,
    copy_out_lem U buf p (moved p count) (record t { held = true }),
    add_s64-pos p (moved p count),
    sound,
  )

  write_up_to_end :
      let n = moved p count in
      let copied = U.copy_from_user t.user buf (slice t.mem p n) in
      let mem = splice t.mem p copied.1 in
      Tdlcd.write U buf count t ≡ (
        if copied.0 == 0
        then done (pos n) (record t { mem = mem; f_pos = pos (p + n) })
        else done efault (record t { mem = mem }))
  unfolding Tdlcd.write mutex_lock mutex_unlock
  write_up_to_end = ground (
    arith,
    clip_lem p count,
    to_u64-pos p,
    copy_in_lem U p buf (moved p count) (record t { held = true }),
    add_s64-pos p (moved p count),
    sound,
  )

  read_up_to_end-Keeps : Keeps t (Tdlcd.read U buf count t)
  read_up_to_end-Keeps =
      let n = moved p count in
      let copied = U.copy_to_user t.user buf (slice t.mem p n) in
      Keeps-eq t read_up_to_end (
        transfer-Keeps U buf count p t sound at (record t { user = copied.1 }) n copied.0 sound at
          (omega arith))

  write_up_to_end-Keeps : Keeps t (Tdlcd.write U buf count t)
  write_up_to_end-Keeps =
      let n = moved p count in
      let copied = U.copy_from_user t.user buf (slice t.mem p n) in
      Keeps-eq t write_up_to_end (
        transfer-Keeps U buf count p t sound at (record t { mem = splice t.mem p copied.1 }) n
          copied.0 (omega (arith, length-splice t.mem p copied.1, sound.0), sound.1) at
          (omega arith))

at_position :
    {User : Type 0} (t : Task User) (o : Outcome (Task User) ℤ)
    → ((p : ℕ) → t.f_pos ≡ pos p → p ≤ size → Keeps t o)
    → (z : ℤ) → t.f_pos ≡ z
    → InDevice size z
    → Keeps t o
at_position t o keeps (pos p) at h = keeps p at h
at_position t o keeps (negsuc n) at h = absurd h

tdlcd_driver-IsSafe : (U : Uaccess) → IsSafe (tdlcd_driver U) size
unfolding Tdlcd.llseek
tdlcd_driver-IsSafe U = record {
  ioctl_keeps = ioctl-Keeps;
  llseek_keeps = llseek-Keeps;
  read_keeps = λ buf count t sound h.
      at_position t _ (λ p at. read_up_to_end-Keeps U buf count p t sound at) t.f_pos refl h;
  write_keeps = λ buf count t sound h.
      at_position t _ (λ p at. write_up_to_end-Keeps U buf count p t sound at) t.f_pos refl h;
}

-- Whatever calls any processes make on any open files of one device, with pread and pwrite at positions up
-- to the end of the memory: each comes to an end with the mutex free, none accesses anything outside the
-- memory, and all positions stay in the device.
pub tdlcd_session :
    (U : Uaccess) (cs : List (Call U.User)) (s : Session)
    → IsValid s
    → Allowed size cs
    → IsComplete (length cs) (run (tdlcd_driver U) cs s)
tdlcd_session U cs s v a =
    run-IsComplete (tdlcd_driver U) size (tdlcd_driver-IsSafe U) (omega arith) cs s v a
