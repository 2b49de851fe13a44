-- ===== src/TdlcdFifo/Laws.antt =====
-- The locked sections of code/tdlcd/tdlcd_fifo.c beside those of code/globalfifo/ch9/globalfifo.c.
use linux_drivers_study.Prelude.{ℕ, ◌≡◌, Bool, arith, ◌-◌, min, take-take}
use linux_drivers_study.Prelude.Bytes.{load_inside}
use linux_drivers_study.Kernel.Uaccess.{Uaccess}
use linux_drivers_study.Fifo
use linux_drivers_study.Fifo.{Fifo, globalfifo_size}
use linux_drivers_study.Fifo.Sections.{IsValid, read_ready_lem, write_ready_lem}
use linux_drivers_study.TdlcdFifo.{read_section, write_section}

-- On a valid device both sections give the same result, state and wake-ups, whatever the copies do.
pub sections-eq-globalfifo :
    (U : Uaccess) (nonblock : Bool) (buf count : ℕ) (f : Fifo) (user : U.User)
    → IsValid f
    → (read_section U nonblock buf count f user ≡ Fifo.read_section U nonblock buf count f user)
      × (write_section U nonblock buf count f user ≡ Fifo.write_section U nonblock buf count f user)
unfolding read_section write_section Fifo.read_section Fifo.write_section
sections-eq-globalfifo U nonblock buf count f user v = (
  ground (
    arith,
    load_inside f.mem 0 (min count f.current_len),
    load_inside f.mem (min count f.current_len) (f.current_len - min count f.current_len),
    take-take (min count f.current_len) f.current_len f.mem,
    read_ready_lem U nonblock buf count f user v,
  ),
  ground (
    arith,
    load_inside f.mem f.current_len (min count (globalfifo_size - f.current_len)),
    write_ready_lem U nonblock buf count f user v,
  ),
)
