-- ===== src/Nvm/Highmem.antt =====
-- The reserved memory of code/NVMSIM/ramdevice.c and its allocator, `hmalloc` and `hfree`.
use linux_drivers_study.Prelude.{
  ℕ, ◌+◌, ◌-◌, ◌%◌, ◌^◌, ◌≤◌, ◌<◌, ◌≡◌, leb, ◌==◌, if◌then◌else◌, Bool, true, false, Option, none,
  some, List, [], ◌∷◌, arith, inl, inr, Bool-cases, leb→le,
}
use linux_drivers_study.Prelude.Int.{ℤ, pos}

-- g_highmem_virt_addr, g_highmem_size and g_highmem_curr_addr, as addresses.
pub record Highmem : Type 0 where
  pub virt_addr : ℕ
  pub size : ℕ
  pub curr_addr : ℕ

-- PMBD_HIGHMEM_AVAILABLE_SPACE: a difference of pointers, compared as an unsigned 64-bit value.
unfoldable pub available : Highmem → ℕ
available h = (h.virt_addr + h.size + 2 ^ 64 - h.curr_addr) % 2 ^ 64

-- The address of the block, NULL for none, and the state after the call.
pub record Block : Type 0 where
  pub rtn : Option ℕ
  pub highmem : Highmem

unfoldable pub hmalloc : ℕ → Highmem → Block
unfolding available
hmalloc bytes h =
    if leb bytes (available h)
    then record {
      rtn = some h.curr_addr;
      highmem = record h { curr_addr = (h.curr_addr + bytes) % 2 ^ 64 };
    }
    else record { rtn = none; highmem = h }

-- No block is ever taken back.
pub record Freed : Type 0 where
  pub ret : ℤ
  pub highmem : Highmem

unfoldable pub hfree : ℕ → Highmem → Freed
hfree addr h = record { ret = pos 0; highmem = h }

-- nvm_highmem_map: the address that ioremap_cache gave, NULL for none.
unfoldable pub highmem_map : Option ℕ → Highmem → Block
highmem_map none h = record { rtn = none; highmem = record h { virt_addr = 0 } }
highmem_map (some addr) h = record {
  rtn = some addr;
  highmem = record h { virt_addr = addr; curr_addr = addr };
}

-- nvm_highmem_unmap, which nothing calls: whether it calls iounmap, and the state after it.
pub record Unmapped : Type 0 where
  pub iounmap : Bool
  pub highmem : Highmem

pub highmem_unmap : Highmem → Unmapped
highmem_unmap h =
    if h.virt_addr == 0
    then record { iounmap = false; highmem = h }
    else record { iounmap = true; highmem = record h { virt_addr = 0 } }

pub record IsValid (h : Highmem) : Type 0 where
  pub above : h.virt_addr ≤ h.curr_addr
  pub below : h.curr_addr ≤ h.virt_addr + h.size
  pub no_wrap : h.virt_addr + h.size < 2 ^ 64

-- `hmalloc` gives a block exactly when so many bytes are left between the current address and the end.
-- The block starts at the current address, which moves behind it; a refusal changes nothing.
pub hmalloc_lem :
    (bytes : ℕ) (h : Highmem)
    → IsValid h
    → IsValid (hmalloc bytes h).highmem
      × (hmalloc bytes h ≡ (
          if leb (h.curr_addr + bytes) (h.virt_addr + h.size)
          then record {
            rtn = some h.curr_addr;
            highmem = record h { curr_addr = h.curr_addr + bytes };
          }
          else record { rtn = none; highmem = h }))
unfolding hmalloc
hmalloc_lem bytes h v = (ground arith, ground arith)

-- A client that asks for blocks and may free what it likes.
pub data Op : Type 0 where
  malloc free : ℕ → Op

-- An address and a length.
pub record Extent : Type 0 where
  pub addr : ℕ
  pub bytes : ℕ

granted : ℕ → Option ℕ → List Extent → List Extent
granted bytes none es = es
granted bytes (some a) es = record { addr = a; bytes = bytes } ∷ es

-- The blocks that the calls give, in order.
pub run : Highmem → List Op → List Extent
unfolding granted hfree
run h [] = []
run h (malloc n ∷ ops) = granted n (hmalloc n h).rtn (run (hmalloc n h).highmem ops)
run h (free a ∷ ops) = run (hfree a h).highmem ops

-- Blocks one behind the other between two addresses, so no two of them overlap.
abbrev pub Ordered : ℕ → ℕ → List Extent → Type 0
Ordered lo hi [] = lo ≤ hi
Ordered lo hi (e ∷ es) = (lo ≤ e.addr) × Ordered (e.addr + e.bytes) hi es

-- Whatever is asked for and freed, the blocks that `hmalloc` gives lie inside the reserved memory and do
-- not overlap, since each starts where the one before ends or later.
pub run-Ordered :
    (h : Highmem) (ops : List Op)
    → IsValid h
    → Ordered h.curr_addr (h.virt_addr + h.size) (run h ops)
unfolding run
run-Ordered h [] v = v.below
run-Ordered h (malloc n ∷ ops) v =
    let spec = (hmalloc_lem n h v).1 in
    elim (Bool-cases (leb (h.curr_addr + n) (h.virt_addr + h.size))) [
      | inl fits ↦
          let h' : Highmem = record h { curr_addr = h.curr_addr + n } in
          let e : hmalloc n h ≡ record { rtn = some h.curr_addr; highmem = h' } = ground arith in
          rw e (omega arith, run-Ordered h' ops (omega (arith, leb→le _ _ fits)))
      | inr full ↦
          let e : hmalloc n h ≡ record { rtn = none; highmem = h } = ground arith in
          rw e (run-Ordered h ops v)
    ]
run-Ordered h (free a ∷ ops) v = run-Ordered h ops v
