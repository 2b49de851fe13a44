-- ===== src/Block.antt =====
-- What the block layer may rely on: a disk as an interface, which the disk drivers of
-- code/vmem_disk/vmem_disk.c and code/NVMSIM/ramdevice.c fill, and its abstract view, an array of bytes. A request
-- is a list of buffers that lie one behind the other on the disk, from a 512-byte sector on.
pub mod Refines
use linux_drivers_study.Prelude.{
  ℕ, ◌+◌, ◌*◌, ◌≤◌, ◌≡◌, List, [], ◌∷◌, Option, none, some, length, ◌∙◌, refl,
}
use linux_drivers_study.Prelude.Bytes.{Bytes, slice, splice, length-splice}

abbrev pub total : List Bytes → ℕ
total [] = 0
total (b ∷ bs) = length b + total bs

-- The array after buffers are written from offset `o` on, and buffers of those lengths filled from there.
abbrev pub put : ℕ → List Bytes → Bytes → Bytes
put o [] m = m
put o (b ∷ bs) m = put (o + length b) bs (splice m o b)

abbrev pub pick : ℕ → List Bytes → Bytes → List Bytes
pick o [] m = []
pick o (b ∷ bs) m = slice m o (length b) ∷ pick (o + length b) bs m

pub length-put : (o : ℕ) (bs : List Bytes) (m : Bytes) → length (put o bs m) ≡ length m
length-put o [] m = refl
length-put o (b ∷ bs) m = length-put (o + length b) bs (splice m o b) ∙ length-splice m o b

-- A driver: what a request does, the bytes that its device stores, and which buffers it takes. `none` is an
-- access out of bounds.
pub record BlockDriver : Type 1 where
  pub Device : Type 0
  pub write : Device → (first : ℕ) → List Bytes → Option (Device × List Bytes)
  pub read : Device → (first : ℕ) → List Bytes → Option (Device × List Bytes)
  pub stored : Device → Bytes
  pub Takes : List Bytes → Type 0
  pub IsValid : Device → Type 0

-- A write inside the device stores its buffers and nothing else; a read fills its buffers.
pub record IsLawful (B : BlockDriver) : Type 0 where
  pub written :
      (d : B.Device) (first : ℕ) (bs : List Bytes)
      → B.IsValid d
      → B.Takes bs
      → first * 512 + total bs ≤ length (B.stored d)
      → (d' : B.Device) × (B.write d first bs ≡ some (d', bs))
        × B.IsValid d'
        × (B.stored d' ≡ put (first * 512) bs (B.stored d))
  pub was_read :
      (d : B.Device) (first : ℕ) (bs : List Bytes)
      → B.IsValid d
      → B.Takes bs
      → first * 512 + total bs ≤ length (B.stored d)
      → B.read d first bs ≡ some (d, pick (first * 512) bs (B.stored d))

pub data Request : Type 0 where
  write read : (first : ℕ) → List Bytes → Request

-- Requests that a driver takes, inside a disk of `n` bytes.
abbrev pub Fit : (List Bytes → Type 0) → ℕ → List Request → Type 0
Fit T n [] = Unit
Fit T n (write first bs ∷ rs) = T bs × (first * 512 + total bs ≤ n) × Fit T n rs
Fit T n (read first bs ∷ rs) = T bs × (first * 512 + total bs ≤ n) × Fit T n rs

-- The buffers that each request gives back, one request after the other.
module _ (B : BlockDriver) where
  unfoldable pub serve : Request → B.Device → Option (B.Device × List Bytes)
  serve (write first bs) d = B.write d first bs
  serve (read first bs) d = B.read d first bs

  unfoldable pub serve_all : List Request → B.Device → Option (List (List Bytes))
  serve_all [] d = some []
  serve_all (r ∷ rs) d = elim (serve r d) [
    | none ↦ none
    | some (d', bs) ↦ elim (serve_all rs d') [ none ↦ none | some rest ↦ some (bs ∷ rest) ]
  ]

-- The same for an array of bytes.
abbrev pub answers : List Request → Bytes → List (List Bytes)
answers [] m = []
answers (write first bs ∷ rs) m = bs ∷ answers rs (put (first * 512) bs m)
answers (read first bs ∷ rs) m = pick (first * 512) bs m ∷ answers rs m
