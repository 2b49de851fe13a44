-- ===== src/Globalmem/Read.antt =====
-- Laws of the `read` handler of code/ch6/globalmem.c.
use linux_drivers_study.Prelude.{ℕ, ◌+◌, ◌≤◌, ◌<◌, ◌≡◌, arith, length, ◌==◌, if◌then◌else◌}
use linux_drivers_study.Prelude.Bytes.{slice, load_inside}
use linux_drivers_study.Prelude.Int.{pos, to_u64}
use linux_drivers_study.Kernel.Errno.{efault}
use linux_drivers_study.Kernel.Outcome.{done}
use linux_drivers_study.Kernel.Uaccess.{Uaccess}
use linux_drivers_study.Globalmem.{Task, globalmem_size, read, copy_out}
use linux_drivers_study.Globalmem.Valid.{moved, clip_lem, to_u64-pos, add_s64-pos}

module _ (U : Uaccess) where
  -- A copy out of the memory, when its range lies inside.
  pub copy_out_lem :
      (buf p n : ℕ) (st : Task U.User)
      → p + n ≤ length st.mem
      → let copied = U.copy_to_user st.user buf (slice st.mem p n) in
        copy_out U buf p n st ≡ done copied.0 (record st { user = copied.1 })
  unfolding copy_out
  copy_out_lem buf p n st h = rw (load_inside st.mem p n h, copy_out)

  -- A read before the end of the memory: `count` is cut to 32 bits and to what is left. If the copy to
  -- the caller leaves nothing, the position advances by the count, which is returned; otherwise
  -- -EFAULT is returned and the position stays. The memory and the mutex do not change.
  pub read_lem :
      (buf size p : ℕ) (st : Task U.User)
      → length st.mem ≡ globalmem_size
      → st.f_pos ≡ pos p
      → p < globalmem_size
      → let n = moved p size in
        let copied = U.copy_to_user st.user buf (slice st.mem p n) in
        read U buf size st ≡ (
          if copied.0 == 0
          then done (pos n) (record st { user = copied.1; f_pos = pos (p + n) })
          else done efault (record st { user = copied.1 }))
  unfolding read
  read_lem buf size p st whole at inside = ground (
    arith,
    clip_lem p size,
    to_u64-pos p,
    copy_out_lem buf p (moved p size) st,
    add_s64-pos p (moved p size),
  )

  -- At or past the end a read gives 0 and changes nothing, for every 64-bit position.
  pub read_at_end :
      (buf size : ℕ) (st : Task U.User)
      → globalmem_size ≤ to_u64 st.f_pos
      → read U buf size st ≡ done (pos 0) st
  unfolding read
  read_at_end buf size st h = ground arith
