-- ===== src/Nvm/Module/Ready.antt =====
-- The ram device of code/NVMSIM/ramdevice.c from `nvm_init` to its requests.
use linux_drivers_study.Prelude.Bytes.{Bytes}
use linux_drivers_study.Block.{Request}
use linux_drivers_study.Nvm.Highmem.{Highmem}
