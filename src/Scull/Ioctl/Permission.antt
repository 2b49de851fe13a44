-- ===== src/Scull/Ioctl/Permission.antt =====
-- Who may change what by `scull_ioctl` of code/examples/scull/main.c.
use linux_drivers_study.Prelude.{ℕ, ◌≡◌, ◌⊎◌, refl, arith, false}
use linux_drivers_study.Prelude.Int.{ℤ}
use linux_drivers_study.Scull.Ioctl.{
  Settings, Answers, Way, setting, telling, getting, querying, exchanging, shifting, reach,
  dispatch, ioctl, command, scull_quantum, scull_qset,
}

-- Without the capability no way changes a setting.
reach_denied :
    (k : Answers) (arg : ℕ) (w : Way) (value : ℤ)
    → k.capable ≡ false
    → (reach k arg w value).now ≡ value
unfolding reach
reach_denied k arg setting value no_right = rw no_right refl
reach_denied k arg telling value no_right = rw no_right refl
reach_denied k arg getting value no_right = ground arith
reach_denied k arg querying value no_right = refl
reach_denied k arg exchanging value no_right = rw no_right refl
reach_denied k arg shifting value no_right = rw no_right refl

-- How the settings of the two commands that need no capability come out, and how they stay.
abbrev pub OnlyOpenCommands : ℕ → Settings → Settings → Type 0
OnlyOpenCommands cmd s s' =
    (s' ≡ s)
    ⊎ (((cmd ≡ command 0 0 0) × (s' ≡ record s { quantum = scull_quantum; qset = scull_qset }))
        ⊎ ((cmd ≡ command 0 0 13) × (s'.quantum ≡ s.quantum) × (s'.qset ≡ s.qset)))

-- A process without CAP_SYS_ADMIN changes no setting by any ioctl, but for SCULL_IOCRESET, which sets the
-- two defaults, and SCULL_P_IOCTSIZE, which changes the size of the pipes' buffers alone.
pub ioctl_permission :
    (k : Answers) (arg cmd : ℕ) (s : Settings)
    → k.capable ≡ false
    → OnlyOpenCommands cmd s (ioctl k arg cmd s).now
unfolding ioctl dispatch
ioctl_permission k arg cmd s no_right = ground (
  arith,
  no_right,
  reach_denied k arg setting s.quantum,
  reach_denied k arg telling s.quantum,
  reach_denied k arg getting s.quantum,
  reach_denied k arg querying s.quantum,
  reach_denied k arg exchanging s.quantum,
  reach_denied k arg shifting s.quantum,
  reach_denied k arg setting s.qset,
  reach_denied k arg telling s.qset,
  reach_denied k arg getting s.qset,
  reach_denied k arg querying s.qset,
  reach_denied k arg exchanging s.qset,
  reach_denied k arg shifting s.qset,
)
