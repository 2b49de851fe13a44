-- ===== src/Tdlcd/Laws.antt =====
-- Laws of `read`, `write` and `ioctl` of code/ch6/tdlcd.c: the memory and the mutex.
use linux_drivers_study.Prelude.{
  ℕ, ◌<◌, ◌≡◌, true, false, arith, length, ◌⊎◌, inl, inr, ltb, Bool-cases,
}
use linux_drivers_study.Prelude.Int.{ℤ, pos, to_u64}
use linux_drivers_study.Kernel.Outcome.{done, blocked}
use linux_drivers_study.Kernel.Uaccess.{Uaccess}
use linux_drivers_study.Globalmem
use linux_drivers_study.Globalmem.{Task}
use linux_drivers_study.Globalmem.Valid.{moved, clip_lem, to_u64-pos}
use linux_drivers_study.Globalmem.Read.{copy_out_lem}
use linux_drivers_study.Globalmem.Write.{copy_in_lem}
use linux_drivers_study.Tdlcd.{size, ctrl_clc, ioctl, read, write}

module _ (U : Uaccess) where
  -- With the mutex free and the position before the end, `read` and `write` do what the driver
  -- without a mutex does, on every branch, and end with the mutex free.
  pub rw-eq-unlocked :
      (buf count p : ℕ) (st : Task U.User)
      → length st.mem ≡ size
      → st.f_pos ≡ pos p
      → p < size
      → st.held ≡ false
      → (read U buf count st ≡ Globalmem.read U buf count st)
        × (write U buf count st ≡ Globalmem.write U buf count st)
  unfolding read write Globalmem.read Globalmem.write
  rw-eq-unlocked buf count p st whole at inside free = (
    ground (
      arith,
      clip_lem p count,
      to_u64-pos p,
      copy_out_lem U buf p (moved p count) st,
      copy_out_lem U buf p (moved p count) (record st { held = true }),
    ),
    ground (
      arith,
      clip_lem p count,
      to_u64-pos p,
      copy_in_lem U p buf (moved p count) st,
      copy_in_lem U p buf (moved p count) (record st { held = true }),
    ),
  )

  -- A write past the end, at any such 64-bit position, returns 0 with the mutex still held. From then
  -- on no write and no MEM_CLEAR gets through, nor a read from a position in the device.
  pub write_keeps_mutex :
      (buf count buf' count' : ℕ) (f_pos : ℤ) (st : Task U.User)
      → size < to_u64 st.f_pos
      → st.held ≡ false
      → let after : Task U.User = record st { held = true; f_pos = f_pos } in
        (write U buf count st ≡ done (pos 0) (record st { held = true }))
        × (write U buf' count' after ≡ blocked)
        × (ioctl ctrl_clc after ≡ blocked)
        × ((size < to_u64 f_pos) ⊎ (read U buf' count' after ≡ blocked))
  unfolding read write ioctl
  write_keeps_mutex buf count buf' count' f_pos st past free = (
    ground arith,
    ground arith,
    ground arith,
    elim (Bool-cases (ltb size (to_u64 f_pos))) [
      | inl e ↦ inl (ground (arith, e))
      | inr e ↦ inr (ground (arith, e))
    ],
  )
