-- ===== src/Tests/Callers.antt =====
-- Runs of the FIFO driver's callers with the mutex and the wait queues spelled out, and of its list of
-- files that asked for SIGIO.
use linux_drivers_study.Prelude.{
  member, ℕ, ◌≡◌, ◌⊎◌, Bool, true, false, List, [], ◌∷◌, refl, replicate, some,
}
use linux_drivers_study.Prelude.Bytes.{splice, load}
use linux_drivers_study.Prelude.Int.{pos}
use linux_drivers_study.Kernel.Uaccess.{flat, flat-IsLawful}
use linux_drivers_study.Kernel.Fasync.{four_files, four_files-IsLawful}
use linux_drivers_study.Fifo.{
  Fifo, quiet, fin, sleep, read_section, write_section, write_ready, fasync, release,
}
use linux_drivers_study.Fifo.Sections.{stored}
use linux_drivers_study.Fifo.System
use linux_drivers_study.Fifo.System.{Sections, Request, reading, writing, section, update}
use linux_drivers_study.Fifo.System.Reachable
use linux_drivers_study.Fifo.Mutex.{
  Machine, holds, goes, Reach, start, later, call, lock, transfer, mark, unlock_marked, locking,
  inside, marked, unlocked, waking,
}
use linux_drivers_study.Fifo.Mutex.Exclusion.{loaded, mutual_exclusion}
use linux_drivers_study.Fifo.Mutex.Refines.{abstract, Reach-abstract}
use linux_drivers_study.Fifo.Mutex.Waiting.{Awaits, no_lost_wake_up}
use linux_drivers_study.Fifo.Mutex.Progress.{lock_can_be_taken}
use linux_drivers_study.TdlcdFifo.Callers
use linux_drivers_study.Fifo.Notify.{Action, fcntl, close, sigio-iff_asked, act, device_after}

abbrev user : ℕ → ℕ
user a = a

abbrev request : Request (ℕ → ℕ)
request = record { nonblock = false; buf = 100; count = 3; user = user }

abbrev at_start : Machine (ℕ → ℕ)
at_start = loaded (ℕ → ℕ) []

abbrev three : Fifo
three = stored (100 ∷ 101 ∷ 102 ∷ []) 3 at_start.fifo

write_three :
    section flat (writing request) at_start.fifo
    ≡ fin (pos 3) three user (record quiet { readers = true })
unfolding section write_section write_ready load splice replicate
write_three = refl

read_nothing : section flat (reading request) at_start.fifo ≡ sleep
unfolding section read_section
read_nothing = refl

-- Process 1 found the device empty and has unlocked, but is not asleep yet; process 0 has the mutex.
abbrev about_to_sleep : Machine (ℕ → ℕ)
about_to_sleep =
    let m =
      goes
        (goes
          (goes (goes at_start 1 (locking false (reading request))) 1
            (inside false (reading request)))
          1 (marked (reading request)))
        1 (unlocked (reading request)) in
    record (goes (goes m 0 (locking false (writing request))) 0 (inside false (writing request))) {
      owner = some 0;
    }

about_to_sleep-Reach :
    (D : Sections flat) (clears : Bool)
    → D (reading request) at_start.fifo ≡ sleep
    → Reach flat D clears at_start about_to_sleep
about_to_sleep-Reach D clears read_nothing =
    later
      (later
        (later
          (later
            (later (later start (call 1 (reading request) refl))
              (lock 1 false (reading request) refl refl))
            (mark 1 false (reading request) refl read_nothing))
          (unlock_marked 1 (reading request) refl))
        (call 0 (writing request) refl))
      (lock 0 false (writing request) refl refl)

-- Process 0 has stored its bytes and is about to wake process 1.
abbrev about_to_wake : Machine (ℕ → ℕ)
about_to_wake = record (goes about_to_sleep 0 (waking (pos 3))) {
  fifo = three;
  pending = record quiet { readers = true };
  written = 100 ∷ 101 ∷ 102 ∷ [];
}

driver_about_to_wake-Reach :
    (D : Sections flat) (clears : Bool)
    → D (reading request) at_start.fifo ≡ sleep
    → D (writing request) at_start.fifo ≡ fin (pos 3) three user (record quiet { readers = true })
    → Reach flat D clears at_start about_to_wake
driver_about_to_wake-Reach D clears read_nothing write_three =
    later (about_to_sleep-Reach D clears read_nothing) (
      transfer 0 false (writing request) (pos 3) three user (record quiet { readers = true }) refl
        write_three)

about_to_wake-Reach : (clears : Bool) → Reach flat (section flat) clears at_start about_to_wake
about_to_wake-Reach clears =
    driver_about_to_wake-Reach (section flat) clears read_nothing write_three

mutual_exclusion_example :
    (about_to_wake.owner ≡ some 0) × ((holds (about_to_wake.place 1) ≡ false) ⊎ (◌≡◌ {A = ℕ} 0 1))
mutual_exclusion_example =
    mutual_exclusion flat (section flat) false [] (about_to_wake-Reach false) 0 1 refl

Reach-abstract_example :
    System.Reach flat (section flat) false (Reachable.loaded (ℕ → ℕ) []) (abstract about_to_wake)
Reach-abstract_example = Reach-abstract flat (section flat) false [] (about_to_wake-Reach false)

-- The device is not empty, but process 0 is about to wake the readers.
no_lost_wake_up_example :
    Awaits false about_to_wake.fifo (record quiet { readers = true }) (unlocked (reading request))
no_lost_wake_up_example = no_lost_wake_up flat false [] flat-IsLawful (about_to_wake-Reach false) 1

-- Process 2 asks for the mutex while process 0 has it.
lock_can_be_taken_example :
    (m' : Machine (ℕ → ℕ)) × Reach flat
      (section flat)
      true
      (goes about_to_wake 2 (locking false (reading request)))
      m'
    × (m'.place 2 ≡ inside false (reading request))
    × (m'.owner ≡ some 2)
lock_can_be_taken_example =
    lock_can_be_taken flat [] flat-IsLawful (goes about_to_wake 2 (locking false (reading request)))
      2 (inside false (reading request))
      (later (about_to_wake-Reach true) (call 2 (reading request) refl)) refl

-- Files 7 and 8 ask for SIGIO, and 8 is closed before the write.
abbrev history : List (Action (ℕ → ℕ))
history = fcntl (pos 3) 7 true ∷ fcntl (pos 4) 8 true ∷ close 8 ∷ []

abbrev asked : Fifo
asked = record at_start.fifo { async_queue = 7 ∷ [] }

write_asked :
    section flat (writing request) (device_after flat four_files history at_start.fifo)
    ≡ fin
        (pos 3)
        (record three { async_queue = 7 ∷ [] })
        user
        (record { readers = true; writers = false; sigio = 7 ∷ [] })
unfolding section write_section write_ready load splice replicate act fasync release
write_asked = refl

sigio-iff_asked_example : member 7 (7 ∷ []) ≡ true
unfolding act fasync release
sigio-iff_asked_example =
    sigio-iff_asked flat four_files four_files-IsLawful 7 history at_start.fifo
      (record three { async_queue = 7 ∷ [] }) request 3 user
      (record { readers = true; writers = false; sigio = 7 ∷ [] }) write_asked
