-- ===== src/Scull/Pipe/Lifecycle.antt =====
-- Opening and closing the pipe of code/examples/scull/pipe.c: the counts and the buffer.
use linux_drivers_study.Prelude.{
  ℕ, zero, suc, ◌+◌, ◌≤◌, ◌≡◌, ◌≢◌, refl, arith, length, ◌==◌, if◌then◌else◌, Bool, true, false,
  List, [], ◌∷◌, Option, some, none, get_elem?, Option-cases, inl, inr, ◌⊎◌,
}
use linux_drivers_study.Prelude.Bytes.{Bytes}
use linux_drivers_study.Prelude.Int.{pos, ◌+ℤ◌, is_negative}
use linux_drivers_study.Kernel.Fasync.{Fasync}
use linux_drivers_study.Scull.Pipe.{
  Pipe, Mode, up_by, down_by, open_pipe, release, fasync, fresh, is_zero,
}

-- An open by some process, and the release of an open file, which is given by its place among them.
pub data Use : Type 0 where
  opening : (interrupted : Bool) (size : ℕ) (block : Option Bytes) → Mode → Use
  closing : (filp place : ℕ) → Use

-- The pipe, and the modes of the files that are open on it, the latest first.
pub record Open : Type 0 where
  pub pipe : Pipe
  pub files : List Mode

abbrev pub remove_at : List Mode → ℕ → List Mode
remove_at [] i = []
remove_at (x ∷ xs) zero = xs
remove_at (x ∷ xs) (suc i) = x ∷ remove_at xs i

module _ (K : Fasync) where
  unfoldable pub run_use : Use → Open → Open
  run_use (opening interrupted size block mode) o =
      let (ret, p) = open_pipe interrupted size block mode o.pipe in
      record { pipe = p; files = if is_negative ret then o.files else mode ∷ o.files }
  run_use (closing filp place) o = elim (get_elem? o.files place) [
    | none ↦ o
    | some mode ↦ record { pipe = (release K filp mode o.pipe).1; files = remove_at o.files place }
  ]

  unfoldable pub run_uses : List Use → Open → Open
  run_uses [] o = o
  run_uses (u ∷ us) o = run_uses us (run_use u o)

-- How many of the files are open for reading, and for writing.
abbrev pub one_if : Bool → ℕ
one_if b = if b then 1 else 0

abbrev pub readers : List Mode → ℕ
readers [] = 0
readers (m ∷ ms) = one_if m.reads + readers ms

abbrev pub writers : List Mode → ℕ
writers [] = 0
writers (m ∷ ms) = one_if m.writes + writers ms

abbrev pub is_none : Option Bytes → Bool
is_none none = true
is_none (some m) = false

-- The counts are those of the open files, a file that reads or writes has a buffer to work on, and
-- with no file open there is none.
pub record IsCounted (o : Open) : Type 0 where
  pub reading : o.pipe.nreaders ≡ pos (readers o.files)
  pub writing : o.pipe.nwriters ≡ pos (writers o.files)
  pub buffered : (is_none o.pipe.buffer ≡ false) ⊎ (readers o.files + writers o.files ≡ 0)
  pub freed : (is_none o.pipe.buffer ≡ true) ⊎ (length o.files ≢ 0)

readers-remove_at :
    (ms : List Mode) (i : ℕ) (m : Mode)
    → get_elem? ms i ≡ some m
    → (readers ms ≡ one_if m.reads + readers (remove_at ms i))
      × (writers ms ≡ one_if m.writes + writers (remove_at ms i))
      × (length ms ≡ suc (length (remove_at ms i)))
readers-remove_at [] i m e = absurd (cc)
readers-remove_at (x ∷ xs) zero m e = ground (arith, e)
readers-remove_at (x ∷ xs) (suc i) m e = ground (arith, readers-remove_at xs i m e)

at_most_all : (ms : List Mode) → (readers ms ≤ length ms) × (writers ms ≤ length ms)
at_most_all [] = omega arith
at_most_all (m ∷ ms) = ground (arith, at_most_all ms)

up_by-pos : (b : Bool) (n : ℕ) → up_by b (pos n) ≡ pos (one_if b + n)
unfolding ◌+ℤ◌
up_by-pos b n = ground arith

down_by-pos : (b : Bool) (n : ℕ) → down_by b (pos (one_if b + n)) ≡ pos n
unfolding ◌+ℤ◌
down_by-pos b n = ground arith

is_zero-add : (a b : ℕ) → is_zero (pos a +ℤ pos b) ≡ (a + b == 0)
unfolding ◌+ℤ◌
is_zero-add a b = ground arith

module _ (o : Open) (c : IsCounted o) where
  opening-IsCounted :
      (K : Fasync) (interrupted : Bool) (size : ℕ) (block : Option Bytes) (mode : Mode)
      → IsCounted (run_use K (opening interrupted size block mode) o)
  unfolding run_use open_pipe
  opening-IsCounted K interrupted size block mode =
      ground
        (arith, c, up_by-pos mode.reads (readers o.files), up_by-pos mode.writes (writers o.files))

  released-IsCounted :
      (K : Fasync) (filp place : ℕ) (mode : Mode)
      → get_elem? o.files place ≡ some mode
      → IsCounted
          (record { pipe = (release K filp mode o.pipe).1; files = remove_at o.files place })
  unfolding release fasync
  released-IsCounted K filp place mode e =
      let rest = remove_at o.files place in
      ground (
        arith,
        c,
        readers-remove_at o.files place mode e,
        down_by-pos mode.reads (readers rest),
        down_by-pos mode.writes (writers rest),
        is_zero-add (readers rest) (writers rest),
        at_most_all rest,
      )

  closing-IsCounted : (K : Fasync) (filp place : ℕ) → IsCounted (run_use K (closing filp place) o)
  unfolding run_use
  closing-IsCounted K filp place = elim (Option-cases (get_elem? o.files place)) [
    | inl e ↦ rw (run_use, e) c
    | inr (mode, e) ↦ rw (run_use, e) (released-IsCounted K filp place mode e)
  ]

run_uses-IsCounted :
    (K : Fasync) (us : List Use) (o : Open) → IsCounted o → IsCounted (run_uses K us o)
unfolding run_uses
run_uses-IsCounted K [] o c = c
run_uses-IsCounted K (opening interrupted size block mode ∷ us) o c =
    run_uses-IsCounted K us _ (opening-IsCounted o c K interrupted size block mode)
run_uses-IsCounted K (closing filp place ∷ us) o c =
    run_uses-IsCounted K us _ (closing-IsCounted o c K filp place)

-- From the device that module init makes, over any sequence of opens, which may be interrupted or find
-- no memory, and of releases: `nreaders` and `nwriters` count the files open for reading and for
-- writing, the buffer is there while one of these is open, and it has been freed when no file is open.
pub buffer_follows_files :
    (K : Fasync) (us : List Use) → IsCounted (run_uses K us (record { pipe = fresh; files = [] }))
buffer_follows_files K us =
    run_uses-IsCounted K us (record { pipe = fresh; files = [] })
      (record { reading = refl; writing = refl; buffered = inr refl; freed = inl refl })
