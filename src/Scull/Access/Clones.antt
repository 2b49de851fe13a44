-- ===== src/Scull/Access/Clones.antt =====
-- The devices that code/examples/scull/access.c keeps for each terminal.
use linux_drivers_study.Prelude.{
  ℕ, ◌*◌, ◌^◌, ◌<◌, ◌≡◌, ◌≢◌, refl, arith, Bool, ◌==◌, if◌then◌else◌, List, [], ◌∷◌, Option, none,
  some, Option-cases, Bool-cases, inl, inr, ◌∙◌,
}
use linux_drivers_study.Prelude.Int.{ℤ, pos}
use linux_drivers_study.Kernel.Errno.{enomem}
use linux_drivers_study.Scull.Device.{Device}
use linux_drivers_study.Scull.Device.Shape.{IsValid}
use linux_drivers_study.Scull.Trim.Memory.{trim_lem}
use linux_drivers_study.Scull.Access.{Clone, find, replace, c_lookfor_device, c_open}

-- Every device is valid, and each terminal has one at most.
abbrev pub AllValid : List Clone → Type 0
AllValid [] = Unit
AllValid (c ∷ cs) = IsValid c.device × (find c.key cs ≡ none) × AllValid cs

abbrev pub empty_device : (quantum qset : ℕ) → Device
empty_device quantum qset = record { qsets = []; quantum = quantum; qset = qset; size = 0 }

find-IsValid :
    (key : ℕ) (cs : List Clone) (d : Device) → AllValid cs → find key cs ≡ some d → IsValid d
find-IsValid key [] d v e = absurd (cc)
find-IsValid key (c ∷ cs) d v e = elim (Bool-cases (c.key == key)) [
  | inl same ↦ let this : c.device ≡ d = ground (arith, e, same) in rw (← this) v.0
  | inr other ↦ find-IsValid key cs d v.2 (ground (arith, e, other))
]

find-replace_same :
    (key : ℕ) (d d' : Device) (cs : List Clone)
    → find key cs ≡ some d
    → find key (replace key d' cs) ≡ some d'
find-replace_same key d d' [] e = absurd (cc)
find-replace_same key d d' (c ∷ cs) e = elim (Bool-cases (c.key == key)) [
  | inl same ↦ ground (arith, same)
  | inr other ↦ ground (arith, other, e, find-replace_same key d d' cs)
]

find-replace_other :
    (key other : ℕ) (d : Device) (cs : List Clone)
    → other ≢ key
    → find other (replace key d cs) ≡ find other cs
find-replace_other key other d [] ne = refl
find-replace_other key other d (c ∷ cs) ne = ground (arith, ne, find-replace_other key other d cs)

find-replace_missing :
    (key other : ℕ) (d : Device) (cs : List Clone)
    → find other cs ≡ none
    → find other (replace key d cs) ≡ none
find-replace_missing key other d [] e = refl
find-replace_missing key other d (c ∷ cs) e = elim (Bool-cases (c.key == other)) [
  | inl same ↦ absurd (ground (arith, same, e))
  | inr differs ↦ ground (arith, differs, e, find-replace_missing key other d cs)
]

replace-AllValid :
    (key : ℕ) (d : Device) (cs : List Clone) → IsValid d → AllValid cs → AllValid (replace key d cs)
replace-AllValid key d [] v h = tt
replace-AllValid key d (c ∷ cs) v h = elim (Bool-cases (c.key == key)) [
  | inl same ↦ rw (replace, same) (v, h.1, h.2)
  | inr other ↦
      rw (replace, other)
        (h.0, find-replace_missing key c.key d cs h.1, replace-AllValid key d cs v h.2)
]

module _ (quantum qset : ℕ) (granted write_only : Bool) (key : ℕ) (cs : List Clone) where
  -- What the terminal's device is after the open, if there is one.
  abbrev pub opens_on : Option Device
  opens_on = elim (find key cs) [
    | none ↦ if granted then some (empty_device quantum qset) else none
    | some d ↦ some (if write_only then empty_device quantum qset else d)
  ]

  abbrev pub result : ℤ
  result = elim (find key cs) [ none ↦ if granted then pos 0 else enomem | some d ↦ pos 0 ]

module _ (quantum qset : ℕ) (granted write_only : Bool) (key : ℕ) (cs : List Clone)
    (h : AllValid cs) (positive : 0 < quantum) (some_entries : 0 < qset)
    (small : quantum * qset < 2 ^ 31) where
  empty-IsValid : IsValid (empty_device quantum qset)
  empty-IsValid = record {
    quantum_positive = positive;
    qset_positive = some_entries;
    itemsize_int = small;
    shaped = tt;
  }

  abbrev Serves : (other : ℕ) → Option (ℤ × List Clone) → Type 0
  Serves other r =
      (cs' : List Clone) × (r ≡ some (result quantum qset granted write_only key cs, cs'))
      × AllValid cs'
      × (find key cs' ≡ opens_on quantum qset granted write_only key cs)
      × (find other cs' ≡ find other cs)

  module _ (other : ℕ) (ne : other ≢ key) where
    opens_old :
        (d : Device)
        → find key cs ≡ some d
        → Serves other (c_open quantum qset granted write_only (some key) cs)
    unfolding c_open c_lookfor_device
    opens_old d e =
        let empty = empty_device quantum qset in
        let trimmed = trim_lem quantum qset d (find-IsValid key cs d h e) in
        elim (Bool-cases write_only) [
          | inl trims ↦ (
            replace key empty cs,
            ground (arith, e, trims, trimmed),
            replace-AllValid key empty cs empty-IsValid h,
            ground (arith, e, trims, find-replace_same key d empty cs e),
            find-replace_other key other empty cs ne,
          )
          | inr keeps ↦ (cs, ground (arith, e, keeps), h, ground (arith, e, keeps), refl)
        ]

    opens_new :
        find key cs ≡ none → Serves other (c_open quantum qset granted write_only (some key) cs)
    unfolding c_open c_lookfor_device
    opens_new e =
        let empty = empty_device quantum qset in
        let added : List Clone = record { key = key; device = empty } ∷ cs in
        let added_valid : AllValid added = (empty-IsValid, e, h) in
        let trimmed = trim_lem quantum qset empty empty-IsValid in
        elim (Bool-cases granted) [
          | inr refused ↦ (cs, ground (arith, e, refused), h, ground (arith, e, refused), refl)
          | inl gets ↦ elim (Bool-cases write_only) [
            | inl trims ↦ (
              replace key empty added,
              ground (arith, e, gets, trims, trimmed),
              replace-AllValid key empty added empty-IsValid added_valid,
              ground (arith, e, gets, trims),
              find-replace_other key other empty added ne ∙ ground (arith, ne),
            )
            | inr keeps ↦ (
              added,
              ground (arith, e, gets, keeps),
              added_valid,
              ground (arith, e, gets, keeps),
              ground (arith, ne),
            )
          ]
        ]

    opens : Serves other (c_open quantum qset granted write_only (some key) cs)
    opens = elim (Option-cases (find key cs)) [ inl e ↦ opens_new e | inr (d, e) ↦ opens_old d e ]

-- With legal settings, an open of `scullpriv` from a terminal works on the device of that terminal: a new
-- empty one if it has none, unless there is no memory for it, the one it has otherwise, emptied if the
-- open is for writing alone. The device of any other terminal stays as it is, no terminal gets two, and
-- every device stays valid.
pub clone_open :
    (quantum qset : ℕ) (granted write_only : Bool) (key other : ℕ) (cs : List Clone)
    → AllValid cs
    → 0 < quantum
    → 0 < qset
    → quantum * qset < 2 ^ 31
    → other ≢ key
    → (cs' : List Clone) × (c_open quantum qset granted write_only (some key) cs
        ≡ some (result quantum qset granted write_only key cs, cs'))
      × AllValid cs'
      × (find key cs' ≡ opens_on quantum qset granted write_only key cs)
      × (find other cs' ≡ find other cs)
clone_open quantum qset granted write_only key other cs h positive some_entries small ne =
    opens quantum qset granted write_only key cs h positive some_entries small other ne
