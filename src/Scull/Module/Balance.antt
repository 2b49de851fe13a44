-- ===== src/Scull/Module/Balance.antt =====
-- Counting what init and cleanup of code/examples/scull acquire and give back.
use linux_drivers_study.Prelude.{
  ℕ, zero, suc, ◌+◌, ◌==◌, if◌then◌else◌, Bool, true, false, ◌&&◌, List, [], ◌∷◌, ◌++◌, arith, ◌≡◌,
  refl, Bool-cases, inl, inr, some,
}
use linux_drivers_study.Prelude.Int.{pos, is_negative}
use linux_drivers_study.Scull.Device.Shape.{count_qsets}
use linux_drivers_study.Scull.Trim.Memory.{trim_lem}
use linux_drivers_study.Scull.Access.{Clone}
use linux_drivers_study.Scull.Access.Clones.{AllValid}
use linux_drivers_study.Scull.Module.{
  Part, bare, pipes, access, Resource, region, memory, cdev, Event, got, refused, gave_back,
  Answers, setup_cdev, setup_all, delete_all, p_init, access_init, p_cleanup, access_cleanup,
  cleanup, init, n_adevs, free_clones,
}

abbrev pub part_number : Part → ℕ
part_number bare = 0
part_number pipes = 1
part_number access = 2

abbrev pub same : Resource → Resource → Bool
same (region p) (region q) = part_number p == part_number q
same (memory p) (memory q) = part_number p == part_number q
same (cdev p i) (cdev q j) = part_number p == part_number q && i == j
same _ _ = false

-- How often `r` is acquired, and given back.
abbrev pub acquired : Resource → List Event → ℕ
acquired r [] = 0
acquired r (got x ∷ es) = (if same r x then 1 else 0) + acquired r es
acquired r (refused x ∷ es) = acquired r es
acquired r (gave_back x ∷ es) = acquired r es

abbrev pub returned : Resource → List Event → ℕ
returned r [] = 0
returned r (got x ∷ es) = returned r es
returned r (refused x ∷ es) = returned r es
returned r (gave_back x ∷ es) = (if same r x then 1 else 0) + returned r es

acquired-append :
    (r : Resource) (xs ys : List Event) → acquired r (xs ++ ys) ≡ acquired r xs + acquired r ys
acquired-append r [] ys = omega arith
acquired-append r (got x ∷ xs) ys = omega (arith, acquired-append r xs ys)
acquired-append r (refused x ∷ xs) ys = acquired-append r xs ys
acquired-append r (gave_back x ∷ xs) ys = acquired-append r xs ys

returned-append :
    (r : Resource) (xs ys : List Event) → returned r (xs ++ ys) ≡ returned r xs + returned r ys
returned-append r [] ys = omega arith
returned-append r (got x ∷ xs) ys = returned-append r xs ys
returned-append r (refused x ∷ xs) ys = returned-append r xs ys
returned-append r (gave_back x ∷ xs) ys = omega (arith, returned-append r xs ys)

-- Where every cdev_add succeeds, the loops of init and cleanup match.
setup-delete :
    (r : Resource) (a : Answers) (part : Part) (n i : ℕ)
    → ((p : Part) (j : ℕ) → a.cdev_add p j ≡ pos 0)
    → (acquired r (setup_all a part n i) ≡ returned r (delete_all part n i))
      × (returned r (setup_all a part n i) ≡ 0)
      × (acquired r (delete_all part n i) ≡ 0)
unfolding setup_all delete_all setup_cdev
setup-delete r a part zero i h = omega arith
setup-delete r a part (suc n) i h = ground (arith, h part i, setup-delete r a part n (i + 1) h)

module _ (r : Resource) (a : Answers) (added : (p : Part) (j : ℕ) → a.cdev_add p j ≡ pos 0) where
  pipes_match :
      (n : ℕ)
      → let run = (p_init n a).events ++ p_cleanup n (p_init n a).devices in
        acquired r run ≡ returned r run
  unfolding p_init p_cleanup
  pipes_match n =
      let last = gave_back (memory pipes) ∷ gave_back (region pipes) ∷ [] in
      ground (
        arith,
        acquired-append r (setup_all a pipes n 0) (delete_all pipes n 0 ++ last),
        returned-append r (setup_all a pipes n 0) (delete_all pipes n 0 ++ last),
        acquired-append r (delete_all pipes n 0) last,
        returned-append r (delete_all pipes n 0) last,
        setup-delete r a pipes n 0 added,
      )

  access_match :
      is_negative (a.region_of access) ≡ false
      → let run = (access_init a).events ++ access_cleanup in acquired r run ≡ returned r run
  unfolding access_init access_cleanup
  access_match fine =
      let last = gave_back (region access) ∷ [] in
      ground (
        arith,
        fine,
        acquired-append r (setup_all a access n_adevs 0) (delete_all access n_adevs 0 ++ last),
        returned-append r (setup_all a access n_adevs 0) (delete_all access n_adevs 0 ++ last),
        acquired-append r (delete_all access n_adevs 0) last,
        returned-append r (delete_all access n_adevs 0) last,
        setup-delete r a access n_adevs 0 added,
      )

-- Loading the module, and unloading it if it loaded.
abbrev pub life : (n n_pipes : ℕ) → Answers → List Event
life n n_pipes a =
    let loaded = init n n_pipes a in
    if is_negative loaded.ret
    then loaded.events
    else loaded.events ++ cleanup n n_pipes true loaded.devices

module _ (n n_pipes : ℕ) (a : Answers) (r : Resource) where
  refused_life :
      is_negative (a.region_of bare) ≡ true
      → acquired r (life n n_pipes a) ≡ returned r (life n n_pipes a)
  unfolding init
  refused_life turned_down = ground (arith, turned_down)

  loaded_life :
      is_negative (a.region_of bare) ≡ false
      → a.kmalloc bare ≡ true
      → is_negative (a.region_of access) ≡ false
      → ((p : Part) (j : ℕ) → a.cdev_add p j ≡ pos 0)
      → acquired r (life n n_pipes a) ≡ returned r (life n n_pipes a)
  unfolding init cleanup
  loaded_life region_given array_given access_given added =
      let friends = p_init n_pipes a in
      let setup = setup_all a bare n 0 in
      let others = friends.events ++ (access_init a).events in
      let mine = delete_all bare n 0 ++ (gave_back (memory bare) ∷ []) in
      let theirs = p_cleanup n_pipes friends.devices ++ access_cleanup in
      let whole = setup ++ others in
      let tail = mine ++ (gave_back (region bare) ∷ theirs) in
      ground (
        arith,
        region_given,
        array_given,
        acquired-append r whole tail,
        returned-append r whole tail,
        acquired-append r setup others,
        returned-append r setup others,
        acquired-append r friends.events (access_init a).events,
        returned-append r friends.events (access_init a).events,
        acquired-append r mine (gave_back (region bare) ∷ theirs),
        returned-append r mine (gave_back (region bare) ∷ theirs),
        acquired-append r (delete_all bare n 0) (gave_back (memory bare) ∷ []),
        returned-append r (delete_all bare n 0) (gave_back (memory bare) ∷ []),
        acquired-append r (p_cleanup n_pipes friends.devices) access_cleanup,
        returned-append r (p_cleanup n_pipes friends.devices) access_cleanup,
        acquired-append r friends.events (p_cleanup n_pipes friends.devices),
        returned-append r friends.events (p_cleanup n_pipes friends.devices),
        acquired-append r (access_init a).events access_cleanup,
        returned-append r (access_init a).events access_cleanup,
        pipes_match r a added n_pipes,
        access_match r a added access_given,
        setup-delete r a bare n 0 added,
      )

-- Over its life the module of scull gives back exactly the device numbers, arrays and cdevs that it
-- acquires, whether it is refused its numbers or loads, with the pipes or without them, if the array of
-- the bare devices and the numbers of the devices with access control are given and no cdev_add fails.
pub module_balanced :
    (n n_pipes : ℕ) (a : Answers) (r : Resource)
    → a.kmalloc bare ≡ true
    → is_negative (a.region_of access) ≡ false
    → ((p : Part) (j : ℕ) → a.cdev_add p j ≡ pos 0)
    → acquired r (life n n_pipes a) ≡ returned r (life n n_pipes a)
module_balanced n n_pipes a r array_given access_given added =
    elim (Bool-cases (is_negative (a.region_of bare))) [
      | inl turned_down ↦ refused_life n n_pipes a r turned_down
      | inr given ↦ loaded_life n n_pipes a r given array_given access_given added
    ]

-- Without the array of the bare devices, init gives back numbers of the devices with access control that
-- it never got.
pub failed_init_excess :
    (n n_pipes : ℕ) (a : Answers)
    → is_negative (a.region_of bare) ≡ false
    → a.kmalloc bare ≡ false
    → (acquired (region access) (life n n_pipes a) ≡ 0)
      × (returned (region access) (life n n_pipes a) ≡ 1)
unfolding init cleanup p_cleanup access_cleanup delete_all
failed_init_excess n n_pipes a region_given no_array = ground (arith, region_given, no_array)

-- How many blocks the clones hold, their list items included.
abbrev pub clone_blocks : List Clone → ℕ
clone_blocks [] = 0
clone_blocks (c ∷ cs) = count_qsets c.device.qsets + 1 + clone_blocks cs

-- Cleanup frees all that the clones hold, each a valid device.
pub free_clones_lem :
    (quantum qset : ℕ) (cs : List Clone)
    → AllValid cs
    → free_clones quantum qset cs ≡ some (clone_blocks cs)
unfolding free_clones
free_clones_lem quantum qset [] h = refl
free_clones_lem quantum qset (c ∷ cs) h =
    ground (arith, trim_lem quantum qset c.device h.0, free_clones_lem quantum qset cs h.2)
