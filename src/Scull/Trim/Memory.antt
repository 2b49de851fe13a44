-- ===== src/Scull/Trim/Memory.antt =====
-- That every block which a device of code/examples/scull/main.c gets is freed.
use linux_drivers_study.Prelude.{ℕ, ◌≡◌, refl, arith, List, [], ◌∷◌, none, some, take_all}
use linux_drivers_study.Scull.Device.{Qset, Device}
use linux_drivers_study.Scull.Device.Shape.{AllQsets, IsValid, count_qsets}
use linux_drivers_study.Scull.Trim.{free_item, free_items, trim}

free_items_lem :
    (quantum qset : ℕ) (qs : List Qset)
    → AllQsets quantum qset qs
    → free_items qset qs ≡ some (count_qsets qs)
unfolding free_items free_item
free_items_lem quantum qset [] h = refl
free_items_lem quantum qset (none ∷ qs) h =
    rw (free_items, free_items_lem quantum qset qs h) (ground arith)
free_items_lem quantum qset (some bs ∷ qs) h =
    ground (arith, h, free_items_lem quantum qset qs h.2, take_all qset bs)

-- A trim of a valid device frees each block that it holds, and leaves it empty.
pub trim_lem :
    (quantum qset : ℕ) (d : Device)
    → IsValid d
    → trim quantum qset d
      ≡ some (record {
        freed = count_qsets d.qsets;
        device = record { qsets = []; quantum = quantum; qset = qset; size = 0 };
      })
unfolding trim
trim_lem quantum qset d v = rw (trim, free_items_lem d.quantum d.qset d.qsets v.shaped) refl
