-- ===== src/Nvm/Module/Laws.antt =====
-- How many devices `nvm_init` of code/NVMSIM/ramdevice.c can make.
use linux_drivers_study.Prelude.{ℕ, zero, suc, ◌+◌, ◌*◌, ◌^◌, ◌≤◌, ◌<◌, ◌≡◌, true, some, arith}
use linux_drivers_study.Kernel.Errno.{enomem}
use linux_drivers_study.Nvm.Highmem.{Highmem, hmalloc, highmem_map}
use linux_drivers_study.Nvm.Module.{Answers, nvm_alloc, alloc_all, init_mapped, nvm_init}

-- The reserved memory is as large as one device: with two or more, the second finds nothing left and the
-- module does not load, although the kernel grants all that is asked of it.
pub second_device_never_fits :
    (num_devices capacity_mb addr : ℕ) (answers : ℕ → Answers) (h : Highmem)
    → 2 ≤ num_devices
    → 0 < capacity_mb
    → capacity_mb < 2 ^ 21
    → addr + capacity_mb * 2 ^ 20 < 2 ^ 64
    → (nvm_init true num_devices capacity_mb answers true (some addr) h).ret ≡ enomem
unfolding nvm_init init_mapped alloc_all nvm_alloc hmalloc highmem_map
second_device_never_fits zero capacity_mb addr answers h two some_mb small room =
    absurd (omega arith)
second_device_never_fits (suc zero) capacity_mb addr answers h two some_mb small room =
    absurd (omega arith)
second_device_never_fits (suc (suc n)) capacity_mb addr answers h two some_mb small room =
    ground arith
