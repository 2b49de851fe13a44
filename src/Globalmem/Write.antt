-- ===== src/Globalmem/Write.antt =====
-- Laws of the `write` handler of code/ch6/globalmem.c, alone and before a `read`.
use linux_drivers_study.Prelude.{
  ℕ, ◌+◌, ◌≤◌, ◌<◌, ◌≡◌, arith, length, ◌==◌, if◌then◌else◌, ◌∙◌, ap, sym,
}
use linux_drivers_study.Prelude.Bytes.{
  Bytes, slice, load_inside, splice, length-splice, slice-splice_self, length-slice,
}
use linux_drivers_study.Prelude.Int.{pos}
use linux_drivers_study.Kernel.Errno.{efault}
use linux_drivers_study.Kernel.Outcome.{done, ◌>>◌}
use linux_drivers_study.Kernel.Uaccess.{Uaccess, IsLawful}
use linux_drivers_study.Seek
use linux_drivers_study.Globalmem.{Task, globalmem_size, read, write, copy_in, llseek}
use linux_drivers_study.Globalmem.Valid.{moved, clip_lem, to_u64-pos, add_s64-pos}
use linux_drivers_study.Globalmem.Read.{read_lem}

module _ (U : Uaccess) where
  -- A copy into the memory, when its range lies inside.
  pub copy_in_lem :
      (p buf n : ℕ) (st : Task U.User)
      → p + n ≤ length st.mem
      → let copied = U.copy_from_user st.user buf (slice st.mem p n) in
        copy_in U p buf n st ≡ done copied.0 (record st { mem = splice st.mem p copied.1 })
  unfolding copy_in
  copy_in_lem p buf n st h = rw (load_inside st.mem p n h, copy_in)

  -- A write before the end of the memory: the bytes that the copy from the caller delivers replace
  -- those at the position. If it leaves nothing, the position advances by the count, which is
  -- returned; otherwise -EFAULT is returned and the position stays.
  pub write_lem :
      (buf size p : ℕ) (st : Task U.User)
      → length st.mem ≡ globalmem_size
      → st.f_pos ≡ pos p
      → p < globalmem_size
      → let n = moved p size in
        let copied = U.copy_from_user st.user buf (slice st.mem p n) in
        let mem = splice st.mem p copied.1 in
        write U buf size st ≡ (
          if copied.0 == 0
          then done (pos n) (record st { mem = mem; f_pos = pos (p + n) })
          else done efault (record st { mem = mem }))
  unfolding write
  write_lem buf size p st whole at inside = ground (
    arith,
    clip_lem p size,
    to_u64-pos p,
    copy_in_lem p buf (moved p size) st,
    add_s64-pos p (moved p size),
  )

  llseek_back :
      (p : ℕ) (st : Task U.User)
      → p < globalmem_size
      → llseek (pos p) 0 st ≡ done (pos p) (record st { f_pos = pos p })
  unfolding llseek Seek.llseek
  llseek_back p st h = ground arith

  -- What the copy of a write at `p` returns, and the bytes that the caller's buffer holds for it.
  abbrev pub incoming : ℕ → ℕ → ℕ → Task U.User → ℕ × Bytes
  incoming buf size p st = U.copy_from_user st.user buf (slice st.mem p (moved p size))

  abbrev pub sent : ℕ → ℕ → ℕ → Task U.User → Bytes
  sent buf size p st = U.read_user st.user buf (moved p size)

  module _ (lawful : IsLawful U) (buf size p : ℕ) (st : Task U.User)
      (whole : length st.mem ≡ globalmem_size) (inside : p < globalmem_size)
      (copied : (incoming buf size p st).0 ≡ 0) where
    landed : (incoming buf size p st).1 ≡ sent buf size p st
    landed =
        lawful.from_user st.user buf (slice st.mem p (moved p size)) copied
        ∙ ap (U.read_user st.user buf) (length-slice st.mem p (moved p size) (omega arith))

    length-sent : length (sent buf size p st) ≡ moved p size
    length-sent =
        ap length (sym landed)
        ∙ lawful.from_user_length st.user buf (slice st.mem p (moved p size))
        ∙ length-slice st.mem p (moved p size) (omega arith)

    kept : slice (splice st.mem p (incoming buf size p st).1) p (moved p size) ≡ sent buf size p st
    kept =
        let back = slice-splice_self st.mem p (sent buf size p st) (omega (arith, length-sent)) in
        rw landed (rw length-sent at back)

  -- Write, seek back with SEEK_SET and read as much: the reader's buffer then holds what the
  -- writer's buffer held, if the copies leave nothing.
  pub read-write :
      (buf out size p : ℕ) (st : Task U.User)
      → IsLawful U
      → length st.mem ≡ globalmem_size
      → st.f_pos ≡ pos p
      → p < globalmem_size
      → (incoming buf size p st).0 ≡ 0
      → (U.copy_to_user st.user out (sent buf size p st)).0 ≡ 0
      → (end : Task U.User) × ((do write U buf size; llseek (pos p) 0; read U out size) st
          ≡ done (pos (moved p size)) end)
        × (U.read_user end.user out (moved p size) ≡ sent buf size p st)
  read-write buf out size p st lawful whole at inside copied_in copied_out =
      let mid : Task U.User = record st {
        mem = splice st.mem p (incoming buf size p st).1;
        f_pos = pos (p + moved p size);
      } in
      let back : Task U.User = record mid { f_pos = pos p } in
      let same = kept lawful buf size p st whole inside copied_in in
      let end : Task U.User = record mid {
        user = (U.copy_to_user st.user out (slice mid.mem p (moved p size))).1;
      } in
      (
        end,
        ground (
          arith,
          write_lem buf size p st,
          llseek_back p mid,
          length-splice st.mem p (incoming buf size p st).1,
          read_lem U out size p back,
          same,
        ),
        ground (
          arith,
          same,
          lawful.to_user st.user out (sent buf size p st),
          length-sent lawful buf size p st whole inside copied_in,
        ),
      )
