-- ===== src/Cdev/Balance.antt =====
-- Counting what the init and exit of the character drivers acquire and give back.
use linux_drivers_study.Prelude.{
  ℕ, zero, suc, ◌+◌, ◌==◌, if◌then◌else◌, Bool, true, false, ◌&&◌, List, [], ◌∷◌, ◌++◌, arith, ◌≡◌,
  Bool-cases, inl, inr,
}
use linux_drivers_study.Prelude.Int.{pos, is_negative}
use linux_drivers_study.Cdev.{
  Resource, region, memory, cdev, Event, got, refused, gave_back, Answers, setup_cdev, setup_all,
  init, delete_all, exit, exit_twice,
}

abbrev pub same : Resource → Resource → Bool
same (region m c) (region m' c') = m == m' && c == c'
same memory memory = true
same (cdev i) (cdev j) = i == j
same _ _ = false

-- How often `r` is acquired, and given back.
abbrev pub acquired : Resource → List Event → ℕ
acquired r [] = 0
acquired r (got x ∷ es) = (if same r x then 1 else 0) + acquired r es
acquired r (refused x ∷ es) = acquired r es
acquired r (gave_back x ∷ es) = acquired r es

abbrev pub returned : Resource → List Event → ℕ
returned r [] = 0
returned r (got x ∷ es) = returned r es
returned r (refused x ∷ es) = returned r es
returned r (gave_back x ∷ es) = (if same r x then 1 else 0) + returned r es

acquired-append :
    (r : Resource) (xs ys : List Event) → acquired r (xs ++ ys) ≡ acquired r xs + acquired r ys
acquired-append r [] ys = omega arith
acquired-append r (got x ∷ xs) ys = omega (arith, acquired-append r xs ys)
acquired-append r (refused x ∷ xs) ys = acquired-append r xs ys
acquired-append r (gave_back x ∷ xs) ys = acquired-append r xs ys

returned-append :
    (r : Resource) (xs ys : List Event) → returned r (xs ++ ys) ≡ returned r xs + returned r ys
returned-append r [] ys = omega arith
returned-append r (got x ∷ xs) ys = returned-append r xs ys
returned-append r (refused x ∷ xs) ys = returned-append r xs ys
returned-append r (gave_back x ∷ xs) ys = omega (arith, returned-append r xs ys)

-- Where every cdev_add succeeds, the loops of init and exit match.
setup-delete :
    (r : Resource) (a : Answers) (n i : ℕ)
    → ((j : ℕ) → a.cdev_add j ≡ pos 0)
    → (acquired r (setup_all a n i) ≡ returned r (delete_all n i))
      × (returned r (setup_all a n i) ≡ 0)
      × (acquired r (delete_all n i) ≡ 0)
unfolding setup_all delete_all setup_cdev
setup-delete r a zero i h = omega arith
setup-delete r a (suc n) i h = ground (arith, h i, setup-delete r a n (i + 1) h)

-- A failing init has given back all that it had acquired.
pub init_failure_balanced :
    (count major : ℕ) (a : Answers) (r : Resource)
    → is_negative (init count major a).ret ≡ true
    → acquired r (init count major a).events ≡ returned r (init count major a).events
unfolding init
init_failure_balanced count major a r h = ground arith

events_of_success :
    (count major : ℕ) (a : Answers)
    → is_negative (init count major a).ret ≡ false
    → (init count major a).events
      ≡ got (region (init count major a).major count) ∷ got memory ∷ setup_all a count 0
unfolding init
events_of_success count major a fine = ground arith

-- After an init that succeeds with every device added, exit gives back exactly what was acquired,
-- whether the major number was fixed or chosen by the kernel.
pub init-exit_balanced :
    (count major : ℕ) (a : Answers) (r : Resource)
    → is_negative (init count major a).ret ≡ false
    → ((j : ℕ) → a.cdev_add j ≡ pos 0)
    → let loaded = init count major a in
      let run = loaded.events ++ exit count loaded.major in acquired r run ≡ returned r run
unfolding exit
init-exit_balanced count major a r fine added =
    let loaded = init count major a in
    let last = gave_back memory ∷ gave_back (region loaded.major count) ∷ [] in
    ground (
      arith,
      events_of_success count major a fine,
      acquired-append r loaded.events (delete_all count 0 ++ last),
      returned-append r loaded.events (delete_all count 0 ++ last),
      acquired-append r (delete_all count 0) last,
      returned-append r (delete_all count 0) last,
      setup-delete r a count 0 added,
    )

-- Loading the module, and unloading it if it loaded.
abbrev pub life : ℕ → ℕ → Answers → List Event
life count major a =
    let loaded = init count major a in
    if is_negative loaded.ret then loaded.events else loaded.events ++ exit count loaded.major

-- Over its life a character driver whose exit deletes each cdev once gives back exactly what it acquires, with a fixed or a dynamic major
-- number, on every failure of init, and after exit if init succeeds, as long as no cdev_add fails.
pub life_balanced :
    (count major : ℕ) (a : Answers) (r : Resource)
    → ((j : ℕ) → a.cdev_add j ≡ pos 0)
    → acquired r (life count major a) ≡ returned r (life count major a)
life_balanced count major a r added = elim (Bool-cases (is_negative (init count major a).ret)) [
  | inl failed ↦ rw failed (init_failure_balanced count major a r failed)
  | inr fine ↦ rw fine (init-exit_balanced count major a r fine added)
]

-- `tdlcd_exit` deletes the first device a second time: one cdev_del more than there were cdev_add.
pub exit_twice_excess :
    (count major : ℕ) (a : Answers)
    → is_negative (init count major a).ret ≡ false
    → ((j : ℕ) → a.cdev_add j ≡ pos 0)
    → let loaded = init count major a in
      let run = loaded.events ++ exit_twice count loaded.major in
      returned (cdev 0) run ≡ acquired (cdev 0) run + 1
unfolding exit_twice
exit_twice_excess count major a fine added =
    let loaded = init count major a in
    let last = gave_back (cdev 0) ∷ gave_back memory ∷ gave_back (region loaded.major count) ∷ [] in
    ground (
      arith,
      events_of_success count major a fine,
      acquired-append (cdev 0) loaded.events (delete_all count 0 ++ last),
      returned-append (cdev 0) loaded.events (delete_all count 0 ++ last),
      acquired-append (cdev 0) (delete_all count 0) last,
      returned-append (cdev 0) (delete_all count 0) last,
      setup-delete (cdev 0) a count 0 added,
    )
