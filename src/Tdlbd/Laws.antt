-- ===== src/Tdlbd/Laws.antt =====
-- The geometry and the failing init of code/tdlbd/tdlbd.c.
use linux_drivers_study.Prelude.{ℕ, ◌*◌, ◌/◌, ◌^◌, ◌<◌, ◌≡◌, ◌≢◌, Bool, true, arith}
use linux_drivers_study.Prelude.Int.{ℤ, pos, is_negative}
use linux_drivers_study.VmemDisk.{Disk}
use linux_drivers_study.VmemDisk.Geo.{geometry_product}
use linux_drivers_study.VmemDisk.Module.{Answers, Resource, acquired, returned, init_with}
use linux_drivers_study.Tdlbd.{getgeo, init}

-- The disk is reported as 1024 times as large as the number of sectors that it holds.
pub getgeo_doubled :
    (d : Disk) (sectors : ℕ)
    → d.size ≡ sectors * 512
    → d.size * 2 / 64 < 2 ^ 16
    → let g = getgeo d in g.cylinders * g.heads * g.sectors ≡ 1024 * sectors
unfolding getgeo
getgeo_doubled d sectors e h = ground (arith, geometry_product (d.size * 2))

-- Unless register_blkdev answers 0, an init that fails has given back all that it acquired.
pub tdlbd_init_balanced :
    (registered : ℤ) (kmalloc : Bool) (answers : ℕ → Answers) (r : Resource)
    → registered ≢ pos 0
    → is_negative (init registered kmalloc answers).ret ≡ true
    → acquired r (init registered kmalloc answers).events
      ≡ returned r (init registered kmalloc answers).events
unfolding init init_with
tdlbd_init_balanced registered kmalloc answers r dynamic h = ground arith
