-- ===== src/Aior.antt =====
-- code/globalfifo/ch9/aior.c, of which code/tdlcd/aior.c is a copy: a program that reads a device by
-- asynchronous I/O, with what it acquires and gives back.
use linux_drivers_study.Prelude.{
  ℕ, ◌+◌, ◌≡◌, inl, inr, Option-cases, ◌==◌, if◌then◌else◌, Bool, true, false, List, [], ◌∷◌,
  Option, none, some, arith,
}
use linux_drivers_study.Prelude.Int.{ℤ, pos, negsuc, is_negative, exceeds}

-- What the calls return. `done`: whether res2 of the event is 0.
pub record Answers : Type 0 where
  pub open_file : ℤ
  pub posix_memalign : ℤ
  pub io_setup : ℤ
  pub io_submit : ℤ
  pub io_getevents : ℤ
  pub done : Bool
  pub io_destroy : ℤ

pub data Resource : Type 0 where
  descriptor buffer context : Resource

-- close, free and io_destroy, which counts as called whether or not it fails.
pub data Event : Type 0 where
  got gave_back : Resource → Event

pub record Ran : Type 0 where
  pub ret : ℤ
  pub events : List Event

abbrev is_one : ℤ → Bool
is_one (pos n) = n == 1
is_one (negsuc n) = false

-- From the label err3 on, and from err2 on.
abbrev err2 : List Event
err2 = gave_back buffer ∷ gave_back descriptor ∷ []

abbrev err3 : List Event
err3 = gave_back context ∷ err2

-- After io_setup. The success path calls io_destroy too, and goes to err2 if that fails.
unfoldable pub with_context : Answers → Ran
with_context a =
    if is_one a.io_submit
    then (if is_one a.io_getevents
        then (if a.done
            then (if is_negative a.io_destroy
                then record { ret = negsuc 0; events = gave_back context ∷ err2 }
                else record {
                  ret = pos 0;
                  events = gave_back context ∷ gave_back buffer ∷ gave_back descriptor ∷ [];
                })
            else record { ret = negsuc 0; events = err3 })
        else record { ret = negsuc 0; events = err3 })
    else record { ret = negsuc 0; events = err3 }

-- After `open`. posix_memalign reports an error by a positive number, which the program takes for success:
-- `none` is the memset through a pointer that was not set.
unfoldable pub with_descriptor : Answers → Option Ran
unfolding with_context
with_descriptor a =
    if is_negative a.posix_memalign
    then some (record { ret = negsuc 0; events = gave_back descriptor ∷ [] })
    else if exceeds a.posix_memalign 0
    then none
    else if is_negative a.io_setup
    then some (record { ret = negsuc 0; events = got buffer ∷ err2 })
    else some
        (record (with_context a) { events = got buffer ∷ got context ∷ (with_context a).events })

-- `main` with a file name.
unfoldable pub main : Answers → Option Ran
main a =
    if is_negative a.open_file
    then some (record { ret = negsuc 0; events = [] })
    else elim (with_descriptor a) [
      | none ↦ none
      | some ran ↦ some (record ran { events = got descriptor ∷ ran.events })
    ]

abbrev pub same : Resource → Resource → Bool
same descriptor descriptor = true
same buffer buffer = true
same context context = true
same _ _ = false

abbrev pub acquired : Resource → List Event → ℕ
acquired r [] = 0
acquired r (got x ∷ es) = (if same r x then 1 else 0) + acquired r es
acquired r (gave_back x ∷ es) = acquired r es

abbrev pub returned : Resource → List Event → ℕ
returned r [] = 0
returned r (got x ∷ es) = returned r es
returned r (gave_back x ∷ es) = (if same r x then 1 else 0) + returned r es

-- Where posix_memalign reports no error, the program comes to its end and has given back each of the
-- descriptor, the buffer and the context as often as it acquired it, whatever the other calls answer.
pub main_balanced :
    (a : Answers) (r : Resource)
    → exceeds a.posix_memalign 0 ≡ false
    → (ran : Ran) × (main a ≡ some ran) × (acquired r ran.events ≡ returned r ran.events)
unfolding main with_descriptor with_context
main_balanced a r fine = elim (Option-cases (main a)) [
  | inl gone ↦ absurd (ground (arith, gone, fine))
  | inr (ran, ends) ↦ (ran, ends, ground (arith, ends, fine))
]
