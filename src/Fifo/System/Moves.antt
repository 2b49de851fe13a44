-- ===== src/Fifo/System/Moves.antt =====
-- What a locked section of code/globalfifo/ch9/globalfifo.c moves between the queue and its caller.
use linux_drivers_study.Prelude.{
  ◌≡◌, ◌⊎◌, Bool, true, false, [], ◌++◌, ◌==◌, if◌then◌else◌, arith, inl, inr, Bool-cases, refl,
  min, take, take-append-drop, ◌-◌, ap, sym, ◌∙◌, length,
}
use mathlib.Core.List.{append-nil}
use linux_drivers_study.Prelude.Bytes.{Bytes, slice}
use linux_drivers_study.Kernel.Errno.{eagain}
use linux_drivers_study.Kernel.Uaccess.{Uaccess, IsLawful, CopiesUp}
use linux_drivers_study.Fifo.{
  Fifo, globalfifo_size, Signals, quiet, Section, fin, sleep, fault, read_section, write_section,
}
use linux_drivers_study.Fifo.Sections.{
  IsValid, contents, length-contents, read_section_lem, write_section_refines,
}
use linux_drivers_study.Fifo.System.{
  Request, Call, reading, writing, Sections, section, sent, received,
}

-- What a finished section did: `input` joined the queue at its end, `output` left it at its front,
-- and whom it does not wake still waits for what it waited for.
pub record Moves (U : Uaccess) (f f' : Fifo) (sig : Signals) (input output : Bytes) : Type 0 where
  pub valid : IsValid f'
  pub queue : CopiesUp U → contents f ++ input ≡ output ++ contents f'
  pub readers_wait : sig.readers ≡ false → f.current_len ≡ 0 → f'.current_len ≡ 0
  pub writers_wait :
      sig.writers ≡ false → f.current_len ≡ globalfifo_size → f'.current_len ≡ globalfifo_size

unless : {A B : Type 0} → (¬ A) ⊎ B → A → B
unless (inl no_a) a = absurd (no_a a)
unless (inr b) a = b

module _ (U : Uaccess) (f : Fifo) where
  abbrev pub SectionMoves : Call U.User → Section U.User → Type 0
  SectionMoves c (fin ret f' user sig) = Moves U f f' sig (sent U c ret) (received U c ret user)
  SectionMoves (reading r) sleep = f.current_len ≡ 0
  SectionMoves (writing r) sleep = f.current_len ≡ globalfifo_size
  SectionMoves c fault = Unit

  SectionMoves-eq :
      (c : Call U.User) {s s' : Section U.User} → s ≡ s' → SectionMoves c s' → SectionMoves c s
  SectionMoves-eq c e h = rw e h

  -- A call that returns an error has moved nothing.
  failed_Moves :
      (f' : Fifo)
      → IsValid f'
      → f'.current_len ≡ f.current_len
      → contents f' ≡ contents f
      → Moves U f f' quiet [] []
  failed_Moves f' v same kept = record {
    valid = v;
    queue = λ _. append-nil (contents f) ∙ sym kept;
    readers_wait = λ _ e. omega arith;
    writers_wait = λ _ e. omega arith;
  }

  read_waiting_Moves :
      (r : Request U.User) (nonblock : Bool)
      → IsValid f
      → f.current_len ≡ 0
      → SectionMoves (reading r) (if nonblock then fin eagain f r.user quiet else sleep)
  read_waiting_Moves r true v e = failed_Moves f v refl refl
  read_waiting_Moves r false v e = e

  write_waiting_Moves :
      (r : Request U.User) (nonblock : Bool)
      → IsValid f
      → f.current_len ≡ globalfifo_size
      → SectionMoves (writing r) (if nonblock then fin eagain f r.user quiet else sleep)
  write_waiting_Moves r true v e = failed_Moves f v refl refl
  write_waiting_Moves r false v e = e

  module _ (lawful : IsLawful U) (r : Request U.User) (v : IsValid f) where
    read_Moves : SectionMoves (reading r) (read_section U r.nonblock r.buf r.count f r.user)
    read_Moves =
        let n = min r.count f.current_len in
        let copied = U.copy_to_user r.user r.buf (take n (contents f)) in
        let (f', user', ends, valid, shorter, left, got) =
          read_section_lem U r.nonblock r.buf r.count f r.user lawful v in
        SectionMoves-eq (reading r) ends (elim (Bool-cases (f.current_len == 0)) [
          | inl empty ↦ rw empty (read_waiting_Moves r r.nonblock v (ground arith))
          | inr some_left ↦ elim (Bool-cases (copied.0 == 0)) [
            | inl ok ↦
                rw (some_left, ok)
                  (record {
                    valid = valid;
                    queue = λ up.
                        append-nil (contents f)
                        ∙ sym (
                            rw (unless got (ground arith), left up)
                              (take-append-drop n (contents f)));
                    readers_wait = λ _ e. ground arith;
                    writers_wait = λ b e. cc;
                  })
            | inr failed ↦ rw (some_left, failed) (failed_Moves f v refl refl)
          ]
        ])

    write_Moves : SectionMoves (writing r) (write_section U r.nonblock r.buf r.count f r.user)
    write_Moves =
        let n = min r.count (globalfifo_size - f.current_len) in
        let copied = U.copy_from_user r.user r.buf (slice f.mem f.current_len n) in
        let (f', failed, ends, valid, failed_valid, added, kept) =
          write_section_refines U r.nonblock r.buf r.count f r.user lawful v in
        SectionMoves-eq (writing r) ends (elim (Bool-cases (f.current_len == globalfifo_size)) [
          | inl full ↦ rw full (write_waiting_Moves r r.nonblock v (ground arith))
          | inr room ↦ elim (Bool-cases (copied.0 == 0)) [
            | inl ok ↦
                rw (room, ok)
                  (record {
                    valid = valid;
                    queue = λ _. sym (unless added (ground arith));
                    readers_wait = λ b e. cc;
                    writers_wait = λ _ e. ground arith;
                  })
            | inr bad ↦
                rw (room, bad)
                  (failed_Moves failed failed_valid
                    (omega (
                      arith,
                      length-contents f v,
                      length-contents failed failed_valid,
                      ap length kept,
                    ))
                    kept)
          ]
        ])

pub section_Moves :
    (U : Uaccess) (c : Call U.User) (f : Fifo)
    → IsLawful U
    → IsValid f
    → SectionMoves U f c (section U c f)
unfolding section
section_Moves U (reading r) f lawful v = read_Moves U f lawful r v
section_Moves U (writing r) f lawful v = write_Moves U f lawful r v

-- A driver whose sections do on a valid device what those of globalfifo do.
abbrev pub Agrees : (U : Uaccess) → Sections U → Type 0
Agrees U D = (c : Call U.User) (f : Fifo) → IsValid f → D c f ≡ section U c f

pub driver_Moves :
    (U : Uaccess) (D : Sections U) (c : Call U.User) (f : Fifo)
    → IsLawful U
    → Agrees U D
    → IsValid f
    → SectionMoves U f c (D c f)
driver_Moves U D c f lawful agrees v =
    SectionMoves-eq U f c (agrees c f v) (section_Moves U c f lawful v)
