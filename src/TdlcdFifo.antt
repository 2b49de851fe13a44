-- ===== src/TdlcdFifo.antt =====
-- code/tdlcd/tdlcd_fifo.c: ten FIFOs after the pattern of code/globalfifo/ch9, with `current_len` an
-- unsigned long and with a file position that `llseek` moves and nothing reads.
pub mod Laws
pub mod Callers
use linux_drivers_study.Prelude.{
  ℕ, ◌+◌, ◌-◌, ◌%◌, ◌^◌, ltb, ◌==◌, if◌then◌else◌, Bool, true, false, not, none, some, replicate,
  List,
}
use linux_drivers_study.Prelude.Bytes.{load, splice}
use linux_drivers_study.Prelude.Int.{ℤ, pos}
use linux_drivers_study.Kernel.Errno.{eagain, efault, einval}
use linux_drivers_study.Kernel.Uaccess.{Uaccess}
use linux_drivers_study.Kernel.Fasync.{Fasync}
use linux_drivers_study.Cdev
use linux_drivers_study.Cdev.{Answers, Loaded, Event, Opened}
use linux_drivers_study.Seek
use linux_drivers_study.Seek.{Seek}
use linux_drivers_study.Fifo
use linux_drivers_study.Fifo.{Fifo, Signals, quiet, Section, fin, sleep, fault, Ioctl, Poll}
use linux_drivers_study.Fifo.Handlers.{Wake, Handled, wait_loop}

-- SIZE
abbrev pub size : ℕ
size = 0x1000

-- CTRL_CLC
abbrev pub ctrl_clc : ℕ
ctrl_clc = 0x1

-- Subtraction and addition of `unsigned long`.
abbrev pub sub_u64 : ℕ → ℕ → ℕ
sub_u64 a b = (a + 2 ^ 64 - b) % 2 ^ 64

abbrev pub add_u64 : ℕ → ℕ → ℕ
add_u64 a b = (a + b) % 2 ^ 64

pub ioctl : ℕ → Fifo → Ioctl
ioctl cmd f =
    if cmd == ctrl_clc
    then record { ret = pos 0; fifo = record f { current_len = 0; mem = replicate size 0 } }
    else record { ret = einval; fifo = f }

pub poll : Fifo → Poll
poll f = record { in_norm = not (f.current_len == 0); out_norm = not (f.current_len == size) }

pub llseek : ℤ → ℤ → ℕ → Seek
llseek = Seek.llseek size

module _ (U : Uaccess) (nonblock : Bool) (buf count : ℕ) where
  pub read_section : Fifo → U.User → Section U.User
  read_section f user =
      let n = if ltb f.current_len count then f.current_len else count in
      let ready : Section U.User = elim (load f.mem 0 n) [
        | none ↦ fault
        | some bytes ↦
            let (left, user') = U.copy_to_user user buf bytes in
            elim (load f.mem n (sub_u64 f.current_len n)) [
              | none ↦ if left == 0 then fault else fin efault f user' quiet
              | some rest ↦
                  if left == 0
                  then fin (pos n)
                      (record f {
                        current_len = sub_u64 f.current_len n;
                        mem = Fifo.move_front U f.mem n rest;
                      })
                      user' (record quiet { writers = true })
                  else fin efault f user' quiet
            ]
      ] in
      if f.current_len == 0 then (if nonblock then fin eagain f user quiet else sleep) else ready

  pub write_section : Fifo → U.User → Section U.User
  write_section f user =
      let room = sub_u64 size f.current_len in
      let n = if ltb room count then room else count in
      let ready : Section U.User = elim (load f.mem f.current_len n) [
        | none ↦ fault
        | some old ↦
            let (left, landed) = U.copy_from_user user buf old in
            let mem = splice f.mem f.current_len landed in
            if left == 0
            then fin (pos n) (record f { current_len = add_u64 f.current_len n; mem = mem }) user
                (record { readers = true; writers = false; sigio = f.async_queue })
            else fin efault (record f { mem = mem }) user quiet
      ] in
      if f.current_len == size then (if nonblock then fin eagain f user quiet else sleep) else ready

  pub read : List (Wake U.User) → Fifo → U.User → Handled U.User
  read = wait_loop read_section

  pub write : List (Wake U.User) → Fifo → U.User → Handled U.User
  write = wait_loop write_section

-- container_of(inode->i_cdev, struct tdlcd_dev, cdev)
pub open_device : ℕ → Opened
open_device = Cdev.open_minor

module _ (K : Fasync) (filp : ℕ) where
  pub fasync : ℤ → Bool → Fifo → ℤ × Fifo
  fasync = Fifo.fasync K filp

  pub release : Fifo → ℤ × Fifo
  release = Fifo.release K filp

-- tdlcd_init and tdlcd_exit: ten devices, TDLCD_NUM.
pub init : ℕ → Answers → Loaded
init = Cdev.init 10

pub exit : ℕ → List Event
exit = Cdev.exit_twice 10
