-- ===== src/Scull/Device.antt =====
-- code/examples/scull/main.c: a device of any length, kept as a chain of quantum sets that grows where it
-- is written. `kmalloc` is an argument: what it answers is the kernel's part.
pub mod Shape
pub mod Follow
pub mod Locate
pub mod Touch
pub mod Write
pub mod Read
pub mod Image
pub mod Session
use linux_drivers_study.Prelude.{
  ℕ, zero, suc, ◌+◌, ◌-◌, ◌*◌, ◌/◌, ◌%◌, ◌^◌, ltb, leb, ◌==◌, ◌||◌, if◌then◌else◌, Bool, true,
  false, not, List, [], ◌∷◌, Option, none, some, min, max, get_elem?, set, replicate, length, take,
}
use linux_drivers_study.Prelude.Bytes.{Bytes, load, splice}
use linux_drivers_study.Prelude.Int.{ℤ, pos}
use linux_drivers_study.Kernel.Errno.{efault, enomem, erestartsys}
use linux_drivers_study.Kernel.Uaccess.{Uaccess}

-- `void **data`: `none` is NULL. An entry of the array is NULL or a quantum.
abbrev pub Qset : Type 0
Qset = Option (List (Option Bytes))

-- `qsets`: the chain from `data` on; the empty list is NULL.
pub record Device : Type 0 where
  pub qsets : List Qset
  pub quantum : ℕ
  pub qset : ℕ
  pub size : ℕ

-- Whether the n-th allocation of a call is granted, and what a new block of this many bytes holds;
-- nothing clears a quantum.
pub record Kmalloc : Type 0 where
  pub grants : ℕ → Bool
  pub block : ℕ → Bytes

-- How a call ends: its result, the position and the device after it, the caller's memory, and how many
-- blocks kmalloc gave it. `broken` is an access outside a block, or a number that is outside the
-- `int` that should hold it, or a division by 0.
pub data Answer (User : Type 0) : Type 0 where
  answer : (ret : ℤ) (f_pos : ℕ) → Device → User → (given : ℕ) → Answer User
  broken : Answer User

pub record Place : Type 0 where
  pub item : ℕ
  pub s_pos : ℕ
  pub q_pos : ℕ

-- item, s_pos and q_pos, for a quantum and a qset that are not negative.
unfoldable pub locate : ℕ → ℕ → ℕ → Option Place
locate quantum qset f_pos =
    let itemsize = quantum * qset in
    if itemsize == 0 || leb (2 ^ 31) itemsize || leb (2 ^ 31) (f_pos / itemsize)
    then none
    else some (record {
      item = f_pos / itemsize;
      s_pos = f_pos % itemsize / quantum;
      q_pos = f_pos % itemsize % quantum;
    })

-- The chain after `scull_follow`, whether it reached the item, and the blocks given so far. The call ends
-- at the first refusal, so this is also the number of the next allocation.
pub record Followed : Type 0 where
  pub qsets : List Qset
  pub found : Bool
  pub given : ℕ

abbrev pub behind : Qset → Followed → Followed
behind q r = record r { qsets = q ∷ r.qsets }

unfoldable pub follow : (ℕ → Bool) → ℕ → List Qset → ℕ → Followed
follow grants given [] zero =
    if grants given
    then record { qsets = none ∷ []; found = true; given = given + 1 }
    else record { qsets = []; found = false; given = given }
follow grants given [] (suc n) =
    let rest = follow grants (given + 1) [] n in
    if grants given then behind none rest else record { qsets = []; found = false; given = given }
follow grants given (q ∷ qs) zero = record { qsets = q ∷ qs; found = true; given = given }
follow grants given (q ∷ qs) (suc n) = behind q (follow grants given qs n)

module _ (U : Uaccess) (k : Kmalloc) (quantum qset buf count f_pos : ℕ) where
  -- From `read only up to the end of this quantum` on; `most` bytes are left in the device.
  unfoldable pub read_block : Place → ℕ → Bytes → Device → U.User → ℕ → Answer U.User
  read_block at most block dev user given =
      let n = min most (quantum - at.q_pos) in
      elim (load block at.q_pos n) [
        | none ↦ broken
        | some bytes ↦
            let (left, user') = U.copy_to_user user buf bytes in
            if left == 0
            then answer (pos n) (f_pos + n) dev user' given
            else answer efault f_pos dev user' given
      ]

  -- dptr == NULL || !dptr->data || !dptr->data[s_pos]
  unfoldable pub read_item : Place → ℕ → Followed → Device → U.User → Answer U.User
  read_item at most way dev user =
      let hole = answer (pos 0) f_pos dev user way.given in
      if way.found
      then elim (get_elem? way.qsets at.item) [
        | none ↦ broken
        | some none ↦ hole
        | some (some blocks) ↦ elim (get_elem? blocks at.s_pos) [
          | none ↦ broken
          | some none ↦ hole
          | some (some block) ↦ read_block at most block dev user way.given
        ]
      ]
      else hole

  -- What `scull_read` does with the semaphore.
  unfoldable pub read_section : Device → U.User → Answer U.User
  read_section dev user =
      let most = if ltb dev.size ((f_pos + count) % 2 ^ 64) then dev.size - f_pos else count in
      if leb dev.size f_pos
      then answer (pos 0) f_pos dev user 0
      else elim (locate quantum qset f_pos) [
        | none ↦ broken
        | some at ↦
            let way = follow k.grants 0 dev.qsets at.item in
            read_item at most way (record dev { qsets = way.qsets }) user
      ]

  -- From `write only up to the end of this quantum` on, in the block at `s_pos` of `blocks`.
  unfoldable pub write_block :
      Place → List (Option Bytes) → Bytes → Device → U.User → ℕ → Answer U.User
  write_block at blocks block dev user given =
      let n = min count (quantum - at.q_pos) in
      elim (load block at.q_pos n) [
        | none ↦ broken
        | some old ↦
            let (left, landed) = U.copy_from_user user buf old in
            let written = some (set blocks at.s_pos (some (splice block at.q_pos landed))) in
            let dev' = record dev { qsets = set dev.qsets at.item written } in
            if left == 0
            then answer (pos n) (f_pos + n) (record dev' { size = max dev.size (f_pos + n) }) user
                given
            else answer efault f_pos dev' user given
      ]

  -- if (!dptr->data[s_pos]); `blocks` is the array of the item.
  unfoldable pub write_blocks : Place → List (Option Bytes) → Device → U.User → ℕ → Answer U.User
  write_blocks at blocks dev user given = elim (get_elem? blocks at.s_pos) [
    | none ↦ broken
    | some none ↦
        if k.grants given
        then write_block at blocks (k.block quantum) dev user (given + 1)
        else answer enomem f_pos dev user given
    | some (some block) ↦ write_block at blocks block dev user given
  ]

  -- if (!dptr->data)
  unfoldable pub write_item : Place → Device → U.User → ℕ → Answer U.User
  write_item at dev user given = elim (get_elem? dev.qsets at.item) [
    | none ↦ broken
    | some none ↦
        let blocks = replicate qset none in
        let dev' = record dev { qsets = set dev.qsets at.item (some blocks) } in
        if k.grants given
        then write_blocks at blocks dev' user (given + 1)
        else answer enomem f_pos dev user given
    | some (some blocks) ↦ write_blocks at blocks dev user given
  ]

  -- What `scull_write` does with the semaphore.
  unfoldable pub write_section : Device → U.User → Answer U.User
  write_section dev user = elim (locate quantum qset f_pos) [
    | none ↦ broken
    | some at ↦
        let way = follow k.grants 0 dev.qsets at.item in
        let dev' = record dev { qsets = way.qsets } in
        if way.found
        then write_item at dev' user way.given
        else answer enomem f_pos dev' user way.given
  ]

module _ (U : Uaccess) (k : Kmalloc) (interrupted : Bool) (buf count f_pos : ℕ) where
  -- `seen`: the device when the call takes `quantum` and `qset` from it, before it has the semaphore;
  -- `dev`: the device when it has it.
  unfoldable pub read : (seen dev : Device) → U.User → Answer U.User
  read seen dev user =
      if interrupted
      then answer erestartsys f_pos dev user 0
      else read_section U k seen.quantum seen.qset buf count f_pos dev user

  unfoldable pub write : (seen dev : Device) → U.User → Answer U.User
  write seen dev user =
      if interrupted
      then answer erestartsys f_pos dev user 0
      else write_section U k seen.quantum seen.qset buf count f_pos dev user
