-- ===== src/Fifo/Readiness.antt =====
-- `globalfifo_poll` of code/globalfifo/ch9/globalfifo.c beside the locked sections.
use linux_drivers_study.Prelude.{ℕ, ◌≡◌, ◌==◌, not, Bool, true, false, arith}
use linux_drivers_study.Prelude.Int.{ℤ, pos, negsuc}
use linux_drivers_study.Kernel.Uaccess.{Uaccess}
use linux_drivers_study.Fifo.{Fifo, Section, fin, sleep, fault, poll, read_section, write_section}
use linux_drivers_study.Fifo.Sections.{IsValid, read_ready_lem, write_ready_lem}

abbrev is_eagain : ℤ → Bool
is_eagain (pos n) = false
is_eagain (negsuc e) = e == 10

-- Whether a section returns -EAGAIN.
abbrev pub refused : {User : Type 0} → Section User → Bool
refused (fin ret f user sig) = is_eagain ret
refused sleep = false
refused fault = false

-- On a valid device poll reports readable exactly when a non-blocking read does not return -EAGAIN, and
-- writable exactly when a non-blocking write does not, whatever their buffers and counts.
pub poll_agrees :
    (U : Uaccess) (buf count : ℕ) (f : Fifo) (user : U.User)
    → IsValid f
    → ((poll f).in_norm ≡ not (refused (read_section U true buf count f user)))
      × ((poll f).out_norm ≡ not (refused (write_section U true buf count f user)))
unfolding poll read_section write_section
poll_agrees U buf count f user v = (
  ground (arith, read_ready_lem U true buf count f user v),
  ground (arith, write_ready_lem U true buf count f user v),
)
