-- ===== src/Tests/Pipes.antt =====
-- Pipes of code/examples/scull.
use linux_drivers_study.Prelude.{
  ℕ, ◌≡◌, ◌≢◌, ◌⊎◌, ◌∷◌, [], some, none, refl, true, false, List, length, arith, ◌≤◌, ◌++◌, ◌<◌,
}
use linux_drivers_study.Prelude.Int.{pos}
use linux_drivers_study.Kernel.Uaccess.{flat, flat-IsLawful}
use linux_drivers_study.Kernel.Fasync.{four_files}
use linux_drivers_study.Scull.Pipe.{Pipe, fresh, fin, sleep, read_section, write_section}
use linux_drivers_study.Fifo.{quiet}
use linux_drivers_study.Scull.Pipe.Queue.{IsValid, contents}
use linux_drivers_study.Scull.Pipe.Sections.{outgoing, incoming, read_refines, write_refines}
use linux_drivers_study.Scull.Pipe.Traffic
use linux_drivers_study.Scull.Pipe.Traffic.{run_calls, pipe_conserves}
use linux_drivers_study.Scull.Pipe.Handlers
use linux_drivers_study.Scull.Pipe.Handlers.{Returns, read, write, pipe_calls_return}
use linux_drivers_study.Scull.Pipe.Sleepers
use linux_drivers_study.Scull.Pipe.Sleepers.{Yard, reader_sleeps, never_both_asleep}
use linux_drivers_study.Scull.Pipe.Lifecycle
use linux_drivers_study.Scull.Pipe.Lifecycle.{run_uses, buffer_follows_files}

-- The contents go round the end of the buffer: 40, 10.
abbrev wrapped_pipe : Pipe
wrapped_pipe = record {
  buffer = some (10 ∷ 20 ∷ 30 ∷ 40 ∷ []);
  buffersize = 4;
  rp = 3;
  wp = 1;
  nreaders = pos 1;
  nwriters = pos 1;
  async_queue = [];
}

wrapped_pipe-IsValid : IsValid wrapped_pipe
wrapped_pipe-IsValid = record {
  allocated = refl;
  whole = refl;
  is_int = omega arith;
  rp_inside = omega arith;
  wp_inside = omega arith;
}

abbrev process : ℕ → ℕ
process a = a

read_refines_example :
    (p' : Pipe) × (user' : ℕ → ℕ) × (read_section flat true 200 2 wrapped_pipe process
      ≡ fin (pos 1) p' user' (record quiet { writers = true }))
    × ((length (contents wrapped_pipe) ≡ 0)
        ⊎ (IsValid p'
            × (contents p' ≡ 10 ∷ [])
            × (1 ≤ 2)
            × ((◌≡◌ {A = ℕ} 2 0) ⊎ (0 < 1))
            × (((outgoing flat true 200 2 wrapped_pipe process).0 ≢ 0)
                ⊎ (flat.read_user user' 200 1 ≡ 40 ∷ []))))
read_refines_example =
    read_refines flat true 200 2 wrapped_pipe process flat-IsLawful wrapped_pipe-IsValid

write_refines_example :
    (p' : Pipe) × (failed : Pipe) × (write_section flat true 100 9 wrapped_pipe process
      ≡ fin (pos 1) p' process (record { readers = true; writers = false; sigio = [] }))
    × IsValid p'
    × IsValid failed
    × (((incoming flat true 100 9 wrapped_pipe process).0 ≢ 0) ⊎ (contents p' ≡ 40 ∷ 10 ∷ 100 ∷ []))
    × (contents failed ≡ 40 ∷ 10 ∷ [])
    × (3 ≤ 3)
    × ((length (contents wrapped_pipe) ≡ 3) ⊎ ((◌≡◌ {A = ℕ} 9 0) ⊎ (0 < 1)))
write_refines_example =
    write_refines flat true 100 9 wrapped_pipe process flat-IsLawful wrapped_pipe-IsValid

abbrev pipe_calls : List (Traffic.Call (ℕ → ℕ))
pipe_calls =
    Traffic.writing true 100 9 process
    ∷ Traffic.reading true 200 2 process
    ∷ Traffic.reading false 0 2 process
    ∷ []

pipe_conserves_example :
    (t : Traffic.Traffic) × (run_calls flat pipe_calls
        (record { pipe = wrapped_pipe; written = []; delivered = [] })
      ≡ some t)
    × IsValid t.pipe
    × (contents wrapped_pipe ++ t.written ≡ t.delivered ++ contents t.pipe)
pipe_conserves_example =
    pipe_conserves flat flat-IsLawful pipe_calls wrapped_pipe wrapped_pipe-IsValid

abbrev drained_pipe : Pipe
drained_pipe = record wrapped_pipe { rp = 1 }

drained_pipe-IsValid : IsValid drained_pipe
drained_pipe-IsValid = record {
  allocated = refl;
  whole = refl;
  is_int = omega arith;
  rp_inside = omega arith;
  wp_inside = omega arith;
}

pipe_calls_return_example :
    Returns (
      read flat false 100 3 false
        (Handlers.woken drained_pipe process ∷ Handlers.woken wrapped_pipe process ∷ [])
        drained_pipe
        process)
    × Returns (
        write flat false 100 3 false
          (Handlers.woken drained_pipe process ∷ Handlers.woken drained_pipe process ∷ [])
          drained_pipe
          process)
pipe_calls_return_example =
    pipe_calls_return flat false 100 3 false (Handlers.woken drained_pipe process ∷ []) drained_pipe
      wrapped_pipe drained_pipe process process flat-IsLawful (drained_pipe-IsValid, tt)
      drained_pipe-IsValid wrapped_pipe-IsValid drained_pipe-IsValid (omega arith) (omega arith)

abbrev one_reader : Yard
one_reader = record {
  pipe = drained_pipe;
  readers = 1;
  writers = 0;
  readers_due = 0;
  writers_due = 0;
}

nothing_there : read_section flat false 200 2 drained_pipe process ≡ sleep
unfolding read_section
nothing_there = refl

never_both_asleep_example :
    IsValid drained_pipe
    × ((one_reader.readers ≡ 0)
        ⊎ ((length (contents drained_pipe) ≡ 0) ⊎ (0 < one_reader.readers_due)))
    × ((one_reader.writers ≡ 0)
        ⊎ ((length (contents drained_pipe) ≡ 3) ⊎ (0 < one_reader.writers_due)))
    × ((drained_pipe.buffersize ≤ 1)
        ⊎ ((one_reader.readers ≡ 0) ⊎ ((one_reader.writers ≡ 0) ⊎ (0 < one_reader.writers_due))))
never_both_asleep_example =
    never_both_asleep flat flat-IsLawful drained_pipe one_reader drained_pipe-IsValid
      (Sleepers.after Sleepers.start (reader_sleeps false 200 2 process nothing_there))

abbrev pipe_uses : List Lifecycle.Use
pipe_uses =
    Lifecycle.opening false 2 (some (0 ∷ 0 ∷ [])) (record { reads = true; writes = false })
    ∷ Lifecycle.opening false 2 none (record { reads = false; writes = true })
    ∷ Lifecycle.closing 7 1
    ∷ []

buffer_follows_files_example :
    Lifecycle.IsCounted (run_uses four_files pipe_uses (record { pipe = fresh; files = [] }))
buffer_follows_files_example = buffer_follows_files four_files pipe_uses

-- An allocator that grants three blocks in a call, filled with 9.
