-- ===== src/Sbull/Idle.antt =====
-- The disk of code/examples/sbull/sbull.c against a medium that is lost when nobody has the disk open for
-- thirty seconds.
use linux_drivers_study.Prelude.{
  ℕ, ◌+◌, ◌-◌, ◌*◌, ◌<◌, ◌≡◌, inl, inr, refl, arith, ◌==◌, leb, if◌then◌else◌, Bool, false, List,
  [], ◌∷◌, Option, none, some, replicate, Option-cases,
}
use linux_drivers_study.Prelude.Bytes.{Bytes}
use mathlib.Core.Path.{subst}
use linux_drivers_study.VmemDisk.{Disk, Moved}
use linux_drivers_study.Sbull.{
  Media, transfer, revalidate, check_disk_change, open_device, release, invalidate, tick,
}

-- A release comes from a user.
pub data Event : Type 0 where
  opens closes ticks : Event
  moves : (sector nsect : ℕ) → Bytes → Bool → Event

module _ (hz : ℕ) where
  -- `none` is an access outside the data.
  unfoldable pub act : Event → Media → Option Media
  act opens m = some (open_device m).1
  act closes m = if m.users == 0 then some m else some (release hz m).1
  act ticks m = some (tick m)
  act (moves sector nsect buffer write) m = elim (transfer m.disk sector nsect buffer write) [
    | none ↦ none
    | some t ↦ some (record m { disk = t.disk })
  ]

  unfoldable pub run : List Event → Media → Option Media
  run [] m = some m
  run (e ∷ es) m = elim (act e m) [ none ↦ none | some m' ↦ run es m' ]

-- The disk, its users, and for how many ticks it has been closed since it was last open.
pub record Medium : Type 0 where
  pub disk : Disk
  pub users : ℕ
  pub idle : Option ℕ

-- Closed for thirty seconds.
abbrev pub lost : ℕ → Option ℕ → Bool
lost hz none = false
lost hz (some n) = leb (30 * hz) n

abbrev pub erased : Disk → Disk
erased d = record { size = d.size; bytes = replicate d.size 0 }

module _ (hz : ℕ) where
  unfoldable pub spec_act : Event → Medium → Option Medium
  spec_act opens s = some (record {
    disk = if s.users == 0 then (if lost hz s.idle then erased s.disk else s.disk) else s.disk;
    users = s.users + 1;
    idle = none;
  })
  spec_act closes s =
      if s.users == 0
      then some s
      else some (record s { users = s.users - 1; idle = if s.users == 1 then some 0 else none })
  spec_act ticks s = some (record s { idle = elim s.idle [ none ↦ none | some n ↦ some (n + 1) ] })
  spec_act (moves sector nsect buffer write) s = elim (transfer s.disk sector nsect buffer write) [
    | none ↦ none
    | some t ↦ some (record s { disk = t.disk })
  ]

  unfoldable pub spec_run : List Event → Medium → Option Medium
  spec_run [] s = some s
  spec_run (e ∷ es) s = elim (spec_act e s) [ none ↦ none | some s' ↦ spec_run es s' ]

  -- The timer runs while the disk is closed, up to the change of the medium.
  abbrev pub Runs : Option ℕ → Media → Type 0
  Runs none m = (m.timer ≡ none) × (m.media_change ≡ false)
  Runs (some n) m =
      (m.users ≡ 0)
      × (m.media_change ≡ leb (30 * hz) n)
      × (m.timer ≡ (if leb (30 * hz) n then none else some (m.jiffies + 30 * hz - n)))

  pub record Stands (m : Media) (s : Medium) : Type 0 where
    pub disk : m.disk ≡ s.disk
    pub users : m.users ≡ s.users
    pub runs : Runs s.idle m

  abbrev pub StandsFor : Option Media → Option Medium → Type 0
  StandsFor none none = Unit
  StandsFor (some m) (some s) = Stands m s
  StandsFor _ _ = ⊥

disk_aside :
    (hz : ℕ) (idle : Option ℕ) (m : Media) (d : Disk)
    → Runs hz idle m
    → Runs hz idle (record m { disk = d })
disk_aside hz none m d h = h
disk_aside hz (some n) m d h = h

module _ (hz : ℕ) (positive : 0 < hz) (m : Media) (s : Medium) (h : Stands hz m s) where
  opens-Stands : StandsFor hz (act hz opens m) (spec_act hz opens s)
  unfolding act spec_act open_device check_disk_change revalidate
  opens-Stands = elim (Option-cases s.idle) [
    | inl never ↦ ground (arith, h, never)
    | inr (n, closed) ↦ ground (arith, h, closed)
  ]

  closes-Stands : StandsFor hz (act hz closes m) (spec_act hz closes s)
  unfolding act spec_act release
  closes-Stands = elim (Option-cases s.idle) [
    | inl never ↦ ground (arith, h, never, positive)
    | inr (n, closed) ↦ ground (arith, h, closed)
  ]

  ticks-Stands : StandsFor hz (act hz ticks m) (spec_act hz ticks s)
  unfolding act spec_act tick invalidate
  ticks-Stands = elim (Option-cases s.idle) [
    | inl never ↦ ground (arith, h, never)
    | inr (n, closed) ↦ ground (arith, h, closed)
  ]

  moves-Stands :
      (sector nsect : ℕ) (buffer : Bytes) (write : Bool)
      → StandsFor hz
          (act hz (moves sector nsect buffer write) m)
          (spec_act hz (moves sector nsect buffer write) s)
  unfolding act spec_act
  moves-Stands sector nsect buffer write =
      subst
        (λ (d : Disk).
          Both (transfer m.disk sector nsect buffer write) (transfer d sector nsect buffer write))
        h.disk (both (transfer m.disk sector nsect buffer write))
    where
      Both : Option Moved → Option Moved → Type 0
      Both r r' =
          StandsFor hz (elim r [ none ↦ none | some t ↦ some (record m { disk = t.disk }) ])
            (elim r' [ none ↦ none | some t ↦ some (record s { disk = t.disk }) ])

      both : (r : Option Moved) → Both r r
      both none = tt
      both (some t) = record {
        disk = refl;
        users = h.users;
        runs = disk_aside hz s.idle m t.disk h.runs;
      }

act-Stands :
    (hz : ℕ)
    → 0 < hz
    → (e : Event) (m : Media) (s : Medium) → Stands hz m s
    → StandsFor hz (act hz e m) (spec_act hz e s)
act-Stands hz positive opens m s h = opens-Stands hz positive m s h
act-Stands hz positive closes m s h = closes-Stands hz positive m s h
act-Stands hz positive ticks m s h = ticks-Stands hz positive m s h
act-Stands hz positive (moves sector nsect buffer write) m s h =
    moves-Stands hz positive m s h sector nsect buffer write

then_run :
    (hz : ℕ) (es : List Event) (r : Option Media) (r' : Option Medium)
    → StandsFor hz r r'
    → ((m : Media) (s : Medium) → Stands hz m s → StandsFor hz (run hz es m) (spec_run hz es s))
    → StandsFor hz
        (elim r [ none ↦ none | some m' ↦ run hz es m' ])
        (elim r' [ none ↦ none | some s' ↦ spec_run hz es s' ])
then_run hz es none none h k = tt
then_run hz es (some m') (some s') h k = k m' s' h
then_run hz es none (some s') h k = absurd h
then_run hz es (some m') none h k = absurd h

run-Stands :
    (hz : ℕ)
    → 0 < hz
    → (es : List Event) (m : Media) (s : Medium) → Stands hz m s
    → StandsFor hz (run hz es m) (spec_run hz es s)
unfolding run spec_run
run-Stands hz positive [] m s h = h
run-Stands hz positive (e ∷ es) m s h =
    then_run hz es (act hz e m) (spec_act hz e s) (act-Stands hz positive e m s h)
      (λ m' s' h'. run-Stands hz positive es m' s' h')

-- The disk as setup_device leaves it, and the medium that it stands for.
abbrev pub closed : Disk → ℕ → Media
closed d jiffies = record {
  disk = d;
  users = 0;
  media_change = false;
  timer = none;
  jiffies = jiffies;
}

abbrev pub inserted : Disk → Medium
inserted d = record { disk = d; users = 0; idle = none }

-- Over any sequence of opens, releases, transfers and ticks of the clock, with the timer that the releases
-- start and the opens stop, the disk of sbull holds what a medium holds that is erased when it is opened
-- after it was closed for thirty seconds or more, and keeps its bytes otherwise. It has as many users, and
-- where a transfer leaves the data, it does so for both.
pub media_refines :
    (hz : ℕ)
    → 0 < hz
    → (es : List Event) (d : Disk) (jiffies : ℕ)
    → StandsFor hz (run hz es (closed d jiffies)) (spec_run hz es (inserted d))
media_refines hz positive es d jiffies =
    run-Stands hz positive es (closed d jiffies) (inserted d)
      (record { disk = refl; users = refl; runs = (refl, refl) })
