-- ===== src/Globalfifo/Ch8.antt =====
-- code/globalfifo/ch8/globalfifo.c: the driver before asynchronous notification. Its device has no
-- `async_queue`; here that field is present and not read.
use linux_drivers_study.Prelude.{
  ℕ, ◌≡◌, ltb, ◌==◌, if◌then◌else◌, Bool, true, none, some, List, [], arith, ◌-◌, min,
}
use linux_drivers_study.Prelude.Bytes.{load, splice, load_inside}
use linux_drivers_study.Prelude.Int.{ℤ, pos}
use linux_drivers_study.Kernel.Errno.{eagain, efault}
use linux_drivers_study.Kernel.Uaccess.{Uaccess}
use linux_drivers_study.Cdev
use linux_drivers_study.Cdev.{Answers, Loaded, Event, Opened}
use linux_drivers_study.Fifo
use linux_drivers_study.Fifo.{
  Fifo, globalfifo_size, Signals, quiet, Section, fin, sleep, fault, Ioctl, Poll, sub_u32, add_u32,
}
use linux_drivers_study.Fifo.Sections.{IsValid, write_ready_lem}
use linux_drivers_study.Fifo.Handlers.{Wake, Handled, wait_loop}

pub ioctl : ℕ → Fifo → Ioctl
ioctl = Fifo.ioctl

pub poll : Fifo → Poll
poll = Fifo.poll

module _ (U : Uaccess) (nonblock : Bool) (buf count : ℕ) where
  pub read_section : Fifo → U.User → Section U.User
  read_section = Fifo.read_section U nonblock buf count

  pub write_section : Fifo → U.User → Section U.User
  write_section f user =
      let room = sub_u32 globalfifo_size f.current_len in
      let n = if ltb room count then room else count in
      let ready : Section U.User = elim (load f.mem f.current_len n) [
        | none ↦ fault
        | some old ↦
            let (left, landed) = U.copy_from_user user buf old in
            let mem = splice f.mem f.current_len landed in
            if left == 0
            then fin (pos n) (record f { current_len = add_u32 f.current_len n; mem = mem }) user
                (record quiet { readers = true })
            else fin efault (record f { mem = mem }) user quiet
      ] in
      if f.current_len == globalfifo_size
      then (if nonblock then fin eagain f user quiet else sleep)
      else ready

  pub read : List (Wake U.User) → Fifo → U.User → Handled U.User
  read = wait_loop read_section

  pub write : List (Wake U.User) → Fifo → U.User → Handled U.User
  write = wait_loop write_section

  -- On a valid device for which nobody asked for SIGIO, the section of `write` is that of the later
  -- version, whatever the copy does.
  pub write_section-eq-ch9 :
      (f : Fifo) (user : U.User)
      → IsValid f
      → f.async_queue ≡ []
      → write_section f user ≡ Fifo.write_section U nonblock buf count f user
  unfolding write_section Fifo.write_section
  write_section-eq-ch9 f user v none_asked = ground (
    arith,
    load_inside f.mem f.current_len (min count (globalfifo_size - f.current_len)),
    write_ready_lem U nonblock buf count f user v,
  )

pub open_device : Opened
open_device = Cdev.open_first

pub release : ℤ
release = Cdev.release

pub init : ℕ → Answers → Loaded
init = Cdev.init 1

pub exit : ℕ → List Event
exit = Cdev.exit 1
