-- ===== src/Sbull/Clusters.antt =====
-- sbull_full_request of code/examples/sbull/sbull.c next to vmem_disk_request of code/vmem_disk/vmem_disk.c.
use linux_drivers_study.Prelude.{
  ℕ, ◌+◌, ◌/◌, ◌≡◌, sym, if◌then◌else◌, refl, inl, inr, arith, Option-cases, Bool-cases, List, [],
  ◌∷◌, Option, none, some,
}
use linux_drivers_study.Prelude.Bytes.{Bytes}
use linux_drivers_study.Prelude.Int.{ℤ, pos}
use linux_drivers_study.Kernel.Errno.{eio}
use linux_drivers_study.VmemDisk
use linux_drivers_study.VmemDisk.{Disk, Bio, Bios, Request, Served, serve, xfer_bios}
use linux_drivers_study.Sbull.{
  SizedBio, Transferred, xfer_bio, xfer_request, Round, Full, Ending, full_round, full_request,
  buffers_of,
}

abbrev bios_of : List SizedBio → List Bio
bios_of [] = []
bios_of (b ∷ bs) = b.bio ∷ bios_of bs

abbrev sectors_of : ℕ → List SizedBio → ℕ
sectors_of n [] = n
sectors_of n (b ∷ bs) = sectors_of (n + b.bi_size / 512) bs

abbrev counted : ℕ → Option Bios → Option Transferred
counted n none = none
counted n (some r) = some (record { disk = r.disk; nsect = n; buffers = r.buffers })

-- The transfer of a request is that of its bios, and the number of sectors adds up the lengths.
xfer_request_lem :
    (d : Disk) (n : ℕ) (bs : List SizedBio)
    → xfer_request d n bs ≡ counted (sectors_of n bs) (xfer_bios d (bios_of bs))
unfolding xfer_request xfer_bio xfer_bios
xfer_request_lem d n [] = refl
xfer_request_lem d n (b ∷ bs) = elim (Option-cases (VmemDisk.xfer_bio d b.bio)) [
  | inl beyond ↦ ground (arith, beyond)
  | inr (m, moved) ↦
      let rest = xfer_request_lem m.disk (n + b.bi_size / 512) bs in
      elim (Option-cases (xfer_bios m.disk (bios_of bs))) [
        | inl beyond ↦ ground (arith, moved, beyond, rest)
        | inr (t, all) ↦ ground (arith, moved, all, rest)
      ]
]

abbrev request_of : Round → Request
request_of r = record { fs = r.fs; bios = bios_of r.bios }

abbrev requests_of : List Round → List Request
requests_of [] = []
requests_of (r ∷ rs) = request_of r ∷ requests_of rs

abbrev moved_round : Option (Transferred × Ending) → Option Bios
moved_round none = none
moved_round (some (t, e)) = some (record { disk = t.disk; buffers = t.buffers })

abbrev moved_full : Option Full → Option (Disk × List (List (List Bytes)))
moved_full none = none
moved_full (some f) = some (f.disk, f.buffers)

abbrev moved_served : Option Served → Option (Disk × List (List (List Bytes)))
moved_served none = none
moved_served (some s) = some (s.disk, s.buffers)

buffers_of_lem : (bs : List SizedBio) → buffers_of bs ≡ VmemDisk.buffers_of (bios_of bs)
buffers_of_lem [] = refl
buffers_of_lem (b ∷ bs) = rw (buffers_of_lem bs) refl

next_lem :
    (e : Ending) (status : ℤ) (buffers : List (List Bytes)) (x : Option Full) (y : Option Served)
    → moved_full x ≡ moved_served y
    → moved_full (elim x [
      | none ↦ none
      | some f ↦
          some (record { disk = f.disk; endings = e ∷ f.endings; buffers = buffers ∷ f.buffers })
    ])
      ≡ moved_served (elim y [
        | none ↦ none
        | some s ↦
            some
              (record { disk = s.disk; status = status ∷ s.status; buffers = buffers ∷ s.buffers })
      ])
next_lem e status buffers none none h = refl
next_lem e status buffers none (some s) h = ground arith
next_lem e status buffers (some f) none h = ground arith
next_lem e status buffers (some f) (some s) h = ground arith

full_round_lem : (d : Disk) (r : Round) → moved_round (full_round d r) ≡ serve d (request_of r)
unfolding full_round serve
full_round_lem d r = elim (Bool-cases r.fs) [
  | inl is_fs ↦
      let all = xfer_request_lem d 0 r.bios in
      elim (Option-cases (xfer_bios d (bios_of r.bios))) [
        | inl beyond ↦ ground (arith, is_fs, all, beyond)
        | inr (t, moved) ↦ ground (arith, is_fs, all, moved)
      ]
  | inr not_fs ↦ let buffers = buffers_of_lem r.bios in ground (arith, not_fs, buffers)
]

-- Whatever end_that_request_first answers, sbull_full_request leaves the disk and the buffers as
-- vmem_disk_request does on the same requests.
full_request-eq-request :
    (d : Disk) (rs : List Round)
    → moved_full (full_request d rs) ≡ moved_served (VmemDisk.request d (requests_of rs))
unfolding full_request VmemDisk.request
full_request-eq-request d [] = refl
full_request-eq-request d (r ∷ rs) =
    rw (sym (full_round_lem d r), moved_served)
      (after (full_round d r) (λ d'. full_request-eq-request d' rs))
  where
    after :
        (x : Option (Transferred × Ending))
        → ((d' : Disk)
            → moved_full (full_request d' rs) ≡ moved_served (VmemDisk.request d' (requests_of rs)))
        → moved_full (elim x [
          | none ↦ none
          | some (t, e) ↦ elim (full_request t.disk rs) [
            | none ↦ none
            | some f ↦
                some (record {
                  disk = f.disk;
                  endings = e ∷ f.endings;
                  buffers = t.buffers ∷ f.buffers;
                })
          ]
        ])
          ≡ moved_served (elim (moved_round x) [
            | none ↦ none
            | some m ↦ elim (VmemDisk.request m.disk (requests_of rs)) [
              | none ↦ none
              | some s ↦ some (record {
                disk = s.disk;
                status = (if r.fs then pos 0 else eio) ∷ s.status;
                buffers = m.buffers ∷ s.buffers;
              })
            ]
          ])
    after none rest = refl
    after (some (t, e)) rest =
        next_lem e (if r.fs then pos 0 else eio) t.buffers (full_request t.disk rs)
          (VmemDisk.request t.disk (requests_of rs)) (rest t.disk)
