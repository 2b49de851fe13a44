-- ===== src/Kernel/Fasync.antt =====
-- `fasync_helper`, the kernel's list of the open files that asked for SIGIO, as an interface that a
-- driver's section takes.
use linux_drivers_study.Prelude.{
  member, ℕ, ◌≡◌, ◌==◌, if◌then◌else◌, Bool, true, false, List, [], ◌∷◌, arith, length, ltb,
  Bool-cases, inl, inr,
}
use linux_drivers_study.Prelude.Int.{ℤ, pos, is_negative}
use linux_drivers_study.Kernel.Errno.{enomem}

-- fasync_helper(fd, filp, mode, &queue): the result, and the queue afterwards.
pub record Fasync : Type 0 where
  pub helper : (fd : ℤ) (filp : ℕ) (mode : Bool) → List ℕ → ℤ × List ℕ

-- The documented behaviour: a call that reports no error has put the file on the list or taken it
-- off, one that reports an error has changed nothing, and taking off reports none.
pub record IsLawful (K : Fasync) : Type 0 where
  pub applied :
      (fd : ℤ) (filp : ℕ) (mode : Bool) (queue : List ℕ) (other : ℕ)
      → is_negative (K.helper fd filp mode queue).0 ≡ false
      → member other (K.helper fd filp mode queue).1
        ≡ (if filp == other then mode else member other queue)
  pub refused :
      (fd : ℤ) (filp : ℕ) (mode : Bool) (queue : List ℕ)
      → is_negative (K.helper fd filp mode queue).0 ≡ true
      → (K.helper fd filp mode queue).1 ≡ queue
  pub taken_off :
      (fd : ℤ) (filp : ℕ) (queue : List ℕ) → is_negative (K.helper fd filp false queue).0 ≡ false

-- A concrete list with room for four files: 1 if the list changed, 0 if not, -ENOMEM if it is full.
module _ where
  abbrev remove : ℕ → List ℕ → List ℕ
  remove x [] = []
  remove x (y ∷ ys) = if x == y then remove x ys else y ∷ remove x ys

  abbrev pub four_files : Fasync
  four_files = record {
    helper = λ fd filp mode queue.
        if mode
        then (if member filp queue
            then (pos 0, queue)
            else if ltb (length queue) 4
            then (pos 1, filp ∷ queue)
            else (enomem, queue))
        else ((if member filp queue then pos 1 else pos 0), remove filp queue);
  }

member-remove :
    (x other : ℕ) (xs : List ℕ)
    → member other (remove x xs) ≡ (if x == other then false else member other xs)
member-remove x other [] = ground arith
member-remove x other (y ∷ ys) = ground (arith, member-remove x other ys)

applied_on :
    (fd : ℤ) (filp : ℕ) (queue : List ℕ) (other : ℕ)
    → is_negative (four_files.helper fd filp true queue).0 ≡ false
    → member other (four_files.helper fd filp true queue).1
      ≡ (if filp == other then true else member other queue)
applied_on fd filp queue other ok = grind arith

refused_on :
    (fd : ℤ) (filp : ℕ) (queue : List ℕ)
    → is_negative (four_files.helper fd filp true queue).0 ≡ true
    → (four_files.helper fd filp true queue).1 ≡ queue
refused_on fd filp queue bad = ground arith

taken_off_never_fails :
    (fd : ℤ) (filp : ℕ) (queue : List ℕ)
    → is_negative (four_files.helper fd filp false queue).0 ≡ false
taken_off_never_fails fd filp queue = ground arith

pub four_files-IsLawful : IsLawful four_files
four_files-IsLawful = record {
  applied = λ fd filp mode queue other ok. elim (Bool-cases mode) [
    | inl on ↦ rw on (applied_on fd filp queue other (rw on at ok))
    | inr off ↦ rw off (member-remove filp other queue)
  ];
  refused = λ fd filp mode queue bad. elim (Bool-cases mode) [
    | inl on ↦ rw on (refused_on fd filp queue (rw on at bad))
    | inr off ↦
        let fails : is_negative (four_files.helper fd filp false queue).0 ≡ true = rw off at bad in
        absurd (ground (arith, taken_off_never_fails fd filp queue, fails))
  ];
  taken_off = taken_off_never_fails;
}
