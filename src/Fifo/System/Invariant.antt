-- ===== src/Fifo/System/Invariant.antt =====
-- The invariant of the device and its callers under the steps of code/globalfifo/ch9/globalfifo.c.
use linux_drivers_study.Prelude.{
  ℕ, ◌≡◌, ◌≢◌, Bool, true, false, List, ◌++◌, arith, refl, ap, sym, ◌∙◌, length-replicate,
}
use mathlib.Core.List.{append_assoc}
use linux_drivers_study.Prelude.Bytes.{Bytes}
use linux_drivers_study.Prelude.Int.{ℤ}
use linux_drivers_study.Kernel.Uaccess.{Uaccess, IsLawful, CopiesUp}
use linux_drivers_study.Fifo.{Fifo, globalfifo_size, Signals, fin, sleep, clear}
use linux_drivers_study.Fifo.Sections.{IsValid, contents}
use linux_drivers_study.Fifo.System.{
  Request, Call, reading, writing, Pc, idle, ready, asleep, wake, update, Sections, sent, received,
  System, Step, call, finish, fall_asleep, interrupt, clear_all, fasync_changes,
}
use linux_drivers_study.Fifo.System.Moves.{Moves, Agrees, driver_Moves}

module _ (U : Uaccess) (D : Sections U) (clears : Bool) where
  -- A reader sleeps only while the device is empty; without FIFO_CLEAR a writer sleeps only while it is
  -- full, and what was written is what was delivered and then what the device holds, in order.
  pub record Inv (s : System U.User) : Type 0 where
    pub valid : IsValid s.fifo
    pub readers :
        (i : ℕ) (r : Request U.User) → s.pc i ≡ asleep (reading r) → s.fifo.current_len ≡ 0
    pub writers :
        (i : ℕ) (r : Request U.User)
        → clears ≡ false
        → s.pc i ≡ asleep (writing r)
        → s.fifo.current_len ≡ globalfifo_size
    pub queue : CopiesUp U → clears ≡ false → s.written ≡ s.delivered ++ contents s.fifo

  module _ (lawful : IsLawful U) (agrees : Agrees U D) (s : System U.User) (v : Inv s) where
    finish_Inv :
        (i : ℕ) (c : Call U.User) (ret : ℤ) (f : Fifo) (user : U.User) (sig : Signals)
        → D c s.fifo ≡ fin ret f user sig
        → Inv (record {
          fifo = f;
          pc = update (λ j. wake sig (s.pc j)) i idle;
          written = s.written ++ sent U c ret;
          delivered = s.delivered ++ received U c ret user;
        })
    finish_Inv i c ret f user sig ends =
        let m : Moves U s.fifo f sig (sent U c ret) (received U c ret user) =
          rw ends at (driver_Moves U D c s.fifo lawful agrees v.valid) in
        record {
          valid = m.valid;
          readers = λ j r e. ground (arith, v.readers j r, m.readers_wait);
          writers = λ j r quiet e. ground (arith, v.writers j r, m.writers_wait);
          queue = λ up quiet.
              ap (λ (b : Bytes). b ++ sent U c ret) (v.queue up quiet)
              ∙ append_assoc s.delivered (contents s.fifo) (sent U c ret)
              ∙ ap (λ (b : Bytes). s.delivered ++ b) (m.queue up)
              ∙ sym (append_assoc s.delivered (received U c ret user) (contents f));
        }

    fall_asleep_Inv :
        (i : ℕ) (c : Call U.User)
        → D c s.fifo ≡ sleep
        → Inv (record s { pc = update s.pc i (asleep c) })
    fall_asleep_Inv i (reading r) ends =
        let reason : s.fifo.current_len ≡ 0 =
          rw ends at (driver_Moves U D (reading r) s.fifo lawful agrees v.valid) in
        record {
          valid = v.valid;
          readers = λ j r' e. reason;
          writers = λ j r' quiet e. ground (arith, v.writers j r');
          queue = v.queue;
        }
    fall_asleep_Inv i (writing r) ends =
        let reason : s.fifo.current_len ≡ globalfifo_size =
          rw ends at (driver_Moves U D (writing r) s.fifo lawful agrees v.valid) in
        record {
          valid = v.valid;
          readers = λ j r' e. ground (arith, v.readers j r');
          writers = λ j r' quiet e. reason;
          queue = v.queue;
        }

    -- A step that only moves one caller to a place where it does not sleep.
    awake_Inv :
        (i : ℕ) (p : Pc U.User)
        → ((c : Call U.User) → p ≢ asleep c)
        → Inv (record s { pc = update s.pc i p })
    awake_Inv i p awake = record {
      valid = v.valid;
      readers = λ j r e. ground (arith, v.readers j r, awake (reading r));
      writers = λ j r quiet e. ground (arith, v.writers j r, awake (writing r));
      queue = v.queue;
    }

    clear-Inv : clears ≡ true → Inv (record s { fifo = clear s.fifo })
    clear-Inv e = record {
      valid = unfold clear in omega (arith, length-replicate {A = ℕ} globalfifo_size 0);
      readers = λ j r a. unfold clear in refl;
      writers = λ j r quiet a. cc;
      queue = λ up quiet. cc;
    }

    fasync_changes-Inv :
        (queue : List ℕ) → Inv (record s { fifo = record s.fifo { async_queue = queue } })
    fasync_changes-Inv queue = record {
      valid = record { whole = v.valid.whole; inside = v.valid.inside };
      readers = v.readers;
      writers = v.writers;
      queue = v.queue;
    }

  pub Step-Inv :
      IsLawful U → Agrees U D → {s t : System U.User} → Step U D clears s t → Inv s → Inv t
  Step-Inv lawful agrees {s} (call i c e) v =
      awake_Inv lawful agrees s v i (ready false c) (λ c' b. cc)
  Step-Inv lawful agrees {s} (finish i slept c ret f user sig e ends) v =
      finish_Inv lawful agrees s v i c ret f user sig ends
  Step-Inv lawful agrees {s} (fall_asleep i slept c e ends) v =
      fall_asleep_Inv lawful agrees s v i c ends
  Step-Inv lawful agrees {s} (interrupt i c e) v = awake_Inv lawful agrees s v i idle (λ c' b. cc)
  Step-Inv lawful agrees {s} (clear_all e) v = clear-Inv lawful agrees s v e
  Step-Inv lawful agrees {s} (fasync_changes queue) v = fasync_changes-Inv lawful agrees s v queue
