-- ===== src/TdlcdFifo/Callers.antt =====
-- Any number of callers of one device of code/tdlcd/tdlcd_fifo.c, by the steps of Fifo.Mutex.
use linux_drivers_study.Prelude.{ℕ, ◌≡◌, true, List, some}
use linux_drivers_study.Kernel.Uaccess.{Uaccess, IsLawful}
use linux_drivers_study.Fifo.System.{Call, reading, writing, Sections}
use linux_drivers_study.Fifo.System
use linux_drivers_study.Fifo.System.Moves.{Agrees}
use linux_drivers_study.Fifo.Mutex.{Place, Machine, Reach, entered}
use linux_drivers_study.Fifo.Mutex.Exclusion.{loaded}
use linux_drivers_study.Fifo.Mutex.Progress.{driver_lock_can_be_taken}
use linux_drivers_study.TdlcdFifo.{read_section, write_section}
use linux_drivers_study.TdlcdFifo.Laws.{sections-eq-globalfifo}

pub section : (U : Uaccess) → Sections U
section U (reading r) f = read_section U r.nonblock r.buf r.count f r.user
section U (writing r) f = write_section U r.nonblock r.buf r.count f r.user

pub section-Agrees : (U : Uaccess) → Agrees U (section U)
unfolding section System.section
section-Agrees U (reading r) f v = (sections-eq-globalfifo U r.nonblock r.buf r.count f r.user v).0
section-Agrees U (writing r) f v = (sections-eq-globalfifo U r.nonblock r.buf r.count f r.user v).1

-- And no deadlock: who waits for the mutex can get it.
pub caller_gets_mutex :
    (U : Uaccess) (async : List ℕ)
    → IsLawful U
    → (m : Machine U.User) (i : ℕ) (p : Place U.User)
    → Reach U (section U) true (loaded U.User async) m
    → entered (m.place i) ≡ some p
    → (m' : Machine U.User) × Reach U (section U) true m m' × (m'.place i ≡ p) × (m'.owner ≡ some i)
caller_gets_mutex U async lawful =
    driver_lock_can_be_taken U (section U) async lawful (section-Agrees U)
