-- ===== src/Scull/Trim.antt =====
-- `scull_trim`, `scull_open`, `scull_release` and `scull_llseek` of code/examples/scull/main.c.
pub mod Memory
pub mod Balance
pub mod Life
use linux_drivers_study.Prelude.{
  ℕ, zero, suc, ◌+◌, ◌%◌, ◌^◌, ◌==◌, ltb, if◌then◌else◌, Bool, true, false, List, [], ◌∷◌, Option,
  none, some, length, take,
}
use linux_drivers_study.Prelude.Int.{ℤ, pos, to_u64, of_u64, add_s64, is_negative}
use linux_drivers_study.Kernel.Errno.{erestartsys, einval}
use linux_drivers_study.Seek.{Seek}
use linux_drivers_study.Scull.Device.{Qset, Device}
use linux_drivers_study.Scull.Device.Shape.{count_blocks}

-- The blocks that one round of the loop frees: the quanta that the first `qset` entries point to, the
-- array, the item. `none` reads past the array's end; kfree of NULL does nothing.
unfoldable pub free_item : ℕ → Qset → Option ℕ
free_item qset none = some 1
free_item qset (some blocks) =
    if ltb (length blocks) qset then none else some (2 + count_blocks (take qset blocks))

unfoldable pub free_items : ℕ → List Qset → Option ℕ
free_items qset [] = some 0
free_items qset (q ∷ qs) = elim (free_item qset q) [
  | none ↦ none
  | some n ↦ elim (free_items qset qs) [ none ↦ none | some m ↦ some (n + m) ]
]

pub record Trimmed : Type 0 where
  pub freed : ℕ
  pub device : Device

-- `quantum` and `qset` are scull_quantum and scull_qset.
unfoldable pub trim : (quantum qset : ℕ) → Device → Option Trimmed
trim quantum qset d = elim (free_items d.qset d.qsets) [
  | none ↦ none
  | some n ↦ some (record {
    freed = n;
    device = record { qsets = []; quantum = quantum; qset = qset; size = 0 };
  })
]

-- Opening for writing alone trims the device, with the semaphore.
unfoldable pub open_device :
    (quantum qset : ℕ) (write_only interrupted : Bool) → Device → Option (ℤ × Trimmed)
open_device quantum qset write_only interrupted d =
    let as_it_is : Trimmed = record { freed = 0; device = d } in
    if write_only
    then (if interrupted
        then some (erestartsys, as_it_is)
        else elim (trim quantum qset d) [ none ↦ none | some t ↦ some (pos 0, t) ])
    else some (pos 0, as_it_is)

pub release : ℤ
release = pos 0

-- The position of the file and the size of the device, an unsigned long.
unfoldable pub llseek : (f_pos off : ℤ) (size whence : ℕ) → Seek
llseek f_pos off size whence =
    let to : ℤ → Seek = λ newpos.
      if is_negative newpos
      then record { f_pos = f_pos; ret = einval }
      else record { f_pos = newpos; ret = newpos } in
    if whence == 0
    then to off
    else if whence == 1
    then to (add_s64 f_pos off)
    else if whence == 2
    then to (of_u64 ((size + to_u64 off) % 2 ^ 64))
    else record { f_pos = f_pos; ret = einval }
