-- ===== src/VmemDisk/Geo.antt =====
-- The geometry that `vmem_disk_getgeo` of code/vmem_disk/vmem_disk.c reports.
use linux_drivers_study.Prelude.{ℕ, ◌*◌, ◌/◌, ◌^◌, ◌<◌, ◌≡◌, arith}
use linux_drivers_study.VmemDisk.{Disk, getgeo, geometry, hardsect_size}

-- While the cylinders fit 16 bits, the product of the geometry is the size that it is computed from,
-- down to a multiple of 64.
pub geometry_product :
    (size : ℕ)
    → size / 64 < 2 ^ 16
    → let g = geometry size in g.cylinders * g.heads * g.sectors ≡ size / 64 * 64
unfolding geometry
geometry_product size h = omega arith

-- The device's size is in bytes, so the disk is reported as 512 times as large as the number of sectors
-- that it holds.
pub getgeo_in_bytes :
    (d : Disk) (sectors : ℕ)
    → d.size ≡ sectors * 512
    → d.size / 64 < 2 ^ 16
    → let g = getgeo d in g.cylinders * g.heads * g.sectors ≡ hardsect_size * sectors
unfolding getgeo
getgeo_in_bytes d sectors e h = ground (arith, geometry_product d.size)
