-- ===== src/Scull/Access/Owners.antt =====
-- Who has the devices of code/examples/scull/access.c that belong to a user open at a time.
use linux_drivers_study.Prelude.{
  ℕ, zero, suc, ◌≡◌, refl, arith, Bool, true, ◌&&◌, ◌||◌, ◌==◌, if◌then◌else◌, List, [], ◌∷◌,
  length, get_elem?, none, some, Option-cases, inl, inr,
}
use linux_drivers_study.Prelude.Int.{is_negative}
use linux_drivers_study.Scull.Access.{
  Caller, Owned, Opened, u_open, u_release, w_available, w_section, w_release,
}

-- The device of `scull_u_open`, or that of `scull_w_open`.
pub data Kind : Type 0 where
  uid waiting : Kind

-- An open of a process, of which the waiting kind is one round of its loop; the release of the open file
-- at this place.
pub data Use : Type 0 where
  opening : (nonblock write_only : Bool) → Caller → Use
  closing : ℕ → Use

-- The device, and the callers who have it open.
pub record Users : Type 0 where
  pub device : Owned
  pub files : List Caller

abbrev pub remove_at : List Caller → ℕ → List Caller
remove_at [] i = []
remove_at (x ∷ xs) zero = xs
remove_at (x ∷ xs) (suc i) = x ∷ remove_at xs i

abbrev pub admitted : Caller → Users → Opened Owned → Users
admitted c u r = record {
  device = r.state;
  files = if is_negative r.ret then u.files else c ∷ u.files;
}

unfoldable pub run_use : Kind → Use → Users → Users
run_use uid (opening nonblock write_only c) u = admitted c u (u_open write_only c u.device)
run_use waiting (opening nonblock write_only c) u =
    elim (w_section nonblock write_only c u.device) [ none ↦ u | some r ↦ admitted c u r ]
run_use kind (closing place) u = elim (get_elem? u.files place) [
  | none ↦ u
  | some c ↦ record {
    device = elim kind [ uid ↦ (u_release u.device).1 | waiting ↦ (w_release u.device).state ];
    files = remove_at u.files place;
  }
]

unfoldable pub run_uses : Kind → List Use → Users → Users
run_uses kind [] u = u
run_uses kind (e ∷ es) u = run_uses kind es (run_use kind e u)

-- The owner is this caller, by its own user or the effective one, or the caller may override.
abbrev pub may_share : ℕ → Caller → Bool
may_share owner c = (owner == c.uid) || (owner == c.euid) || c.override

abbrev pub all_share : ℕ → List Caller → Bool
all_share owner [] = true
all_share owner (c ∷ cs) = may_share owner c && all_share owner cs

-- The count is the number of open files, and all of them share the owner.
abbrev pub IsShared : Users → Type 0
IsShared u = (u.device.count ≡ length u.files) × (all_share u.device.owner u.files ≡ true)

remove_at_lem :
    (cs : List Caller) (i owner : ℕ) (c : Caller)
    → get_elem? cs i ≡ some c
    → all_share owner cs ≡ true
    → (length cs ≡ suc (length (remove_at cs i))) × (all_share owner (remove_at cs i) ≡ true)
remove_at_lem [] i owner c e h = absurd (cc)
remove_at_lem (x ∷ xs) zero owner c e h = ground (arith, h)
remove_at_lem (x ∷ xs) (suc i) owner c e h = ground (arith, h, remove_at_lem xs i owner c)

no_files : (cs : List Caller) (owner : ℕ) → length cs ≡ 0 → all_share owner cs ≡ true
no_files [] owner h = refl
no_files (c ∷ cs) owner h = absurd (omega arith)

module _ (u : Users) (h : IsShared u) where
  uid-IsShared :
      (nonblock write_only : Bool) (c : Caller)
      → IsShared (run_use uid (opening nonblock write_only c) u)
  unfolding run_use u_open
  uid-IsShared nonblock write_only c = ground (arith, h, no_files u.files c.uid)

  waiting-IsShared :
      (nonblock write_only : Bool) (c : Caller)
      → IsShared (run_use waiting (opening nonblock write_only c) u)
  unfolding run_use w_section w_available
  waiting-IsShared nonblock write_only c = ground (arith, h, no_files u.files c.uid)

  closing-IsShared : (kind : Kind) (place : ℕ) → IsShared (run_use kind (closing place) u)
  unfolding run_use u_release w_release
  closing-IsShared uid place = elim (Option-cases (get_elem? u.files place)) [
    | inl e ↦ rw (run_use, e) h
    | inr (c, e) ↦
        rw (run_use, e) (ground (arith, h, remove_at_lem u.files place u.device.owner c e))
  ]
  closing-IsShared waiting place = elim (Option-cases (get_elem? u.files place)) [
    | inl e ↦ rw (run_use, e) h
    | inr (c, e) ↦
        rw (run_use, e) (ground (arith, h, remove_at_lem u.files place u.device.owner c e))
  ]

run_uses-IsShared :
    (kind : Kind) (es : List Use) (u : Users) → IsShared u → IsShared (run_uses kind es u)
unfolding run_uses
run_uses-IsShared kind [] u h = h
run_uses-IsShared uid (opening nonblock write_only c ∷ es) u h =
    run_uses-IsShared uid es _ (uid-IsShared u h nonblock write_only c)
run_uses-IsShared waiting (opening nonblock write_only c ∷ es) u h =
    run_uses-IsShared waiting es _ (waiting-IsShared u h nonblock write_only c)
run_uses-IsShared kind (closing place ∷ es) u h =
    run_uses-IsShared kind es _ (closing-IsShared u h kind place)

-- The device of a user, `sculluid` or `scullwuid`, over any sequence of opens by any processes and of
-- releases: its count is the number of open files, and every process that has it open runs as the owner,
-- really or effectively, or may override. So two users without that right never have it open together.
pub users_share_owner :
    (kind : Kind) (es : List Use) (owner : ℕ)
    → IsShared
        (run_uses kind es (record { device = record { count = 0; owner = owner }; files = [] }))
users_share_owner kind es owner = run_uses-IsShared kind es _ (refl, refl)
