-- ===== src/Scull/Access/Waiting.antt =====
-- When `scull_w_open` of code/examples/scull/access.c returns.
use linux_drivers_study.Prelude.{
  ◌≡◌, refl, arith, Bool, true, false, List, [], ◌∷◌, ◌++◌, Option, none, some, Bool-cases,
  Option-cases, inl, inr, ◌⊎◌,
}
use linux_drivers_study.Prelude.Int.{pos}
use linux_drivers_study.Kernel.Errno.{erestartsys, eagain}
use linux_drivers_study.Scull.Access.{
  Caller, Owned, Opened, grabbed, w_available, w_section, w_release, Wake, signal, woken, w_open,
}

-- An open that returned, with 0, with -EAGAIN if it does not block, or with -ERESTARTSYS if it does.
abbrev pub Decided : (nonblock : Bool) → Option (Opened Owned) → Type 0
Decided nonblock none = ⊥
Decided nonblock (some r) =
    (r.ret ≡ pos 0)
    ⊎ (((r.ret ≡ eagain) × (nonblock ≡ true)) ⊎ ((r.ret ≡ erestartsys) × (nonblock ≡ false)))

-- What a round answers.
section_decides :
    (nonblock write_only : Bool) (c : Caller) (o : Owned) (r : Opened Owned)
    → w_section nonblock write_only c o ≡ some r
    → Decided nonblock (some r)
unfolding w_section
section_decides nonblock write_only c o r e = elim (Bool-cases (w_available c o)) [
  | inl free ↦ inl (ground (arith, e, free))
  | inr taken ↦ elim (Bool-cases nonblock) [
    | inl n ↦ inr (inl (ground (arith, e, taken, n), n))
    | inr n ↦ absurd (ground (arith, e, taken, n))
  ]
]

sleeps_blocking :
    (nonblock write_only : Bool) (c : Caller) (o : Owned)
    → w_section nonblock write_only c o ≡ none
    → nonblock ≡ false
unfolding w_section
sleeps_blocking nonblock write_only c o e = ground (arith, e)

module _ (nonblock write_only : Bool) (c : Caller) (free : Owned)
    (available : w_available c free ≡ true) where
  last_round :
      w_section nonblock write_only c free
      ≡ some (record { ret = pos 0; state = grabbed c free; trims = write_only })
  unfolding w_section
  last_round = rw available refl

  open_decides :
      (ws : List Wake) (o : Owned)
      → Decided nonblock (w_open nonblock write_only c (ws ++ (woken free ∷ [])) o)
  unfolding w_open
  open_decides [] o = elim (Option-cases (w_section nonblock write_only c o)) [
    | inl e ↦ rw (w_open, e, last_round) (inl refl)
    | inr (r, e) ↦ rw (w_open, e) (section_decides nonblock write_only c o r e)
  ]
  open_decides (signal o' ∷ ws) o = elim (Option-cases (w_section nonblock write_only c o)) [
    | inl e ↦ rw (w_open, e) (inr (inr (refl, sleeps_blocking nonblock write_only c o e)))
    | inr (r, e) ↦ rw (w_open, e) (section_decides nonblock write_only c o r e)
  ]
  open_decides (woken o' ∷ ws) o = elim (Option-cases (w_section nonblock write_only c o)) [
    | inl e ↦ rw (w_open, e) (open_decides ws o')
    | inr (r, e) ↦ rw (w_open, e) (section_decides nonblock write_only c o r e)
  ]

released-available :
    (c : Caller) (o : Owned) → (w_release o).wakes ≡ true → w_available c (w_release o).state ≡ true
unfolding w_release w_available
released-available c o e = ground (arith, e)

-- After any schedule of wake-ups and signals, an open of `scullwuid` whose last wake-up finds the device as a
-- release that wakes left it, no other open having taken it in between, returns, at that wake-up or
-- before, whoever asks: with 0, or -EAGAIN if it does not block, or
-- -ERESTARTSYS if it does.
pub last_release_serves :
    (nonblock write_only : Bool) (c : Caller) (ws : List Wake) (o last : Owned)
    → (w_release last).wakes ≡ true
    → Decided nonblock (w_open nonblock write_only c (ws ++ (woken (w_release last).state ∷ [])) o)
last_release_serves nonblock write_only c ws o last wakes =
    open_decides nonblock write_only c (w_release last).state (released-available c last wakes) ws o
