-- ===== src/Block/Refines.antt =====
-- A lawful disk driver is an array of bytes to its clients.
use linux_drivers_study.Prelude.{ℕ, ◌*◌, ◌≡◌, List, [], ◌∷◌, some, length, refl, ap, ◌∙◌}
use linux_drivers_study.Prelude.Bytes.{Bytes}
use linux_drivers_study.Block.{
  length-put, BlockDriver, IsLawful, Request, write, read, Fit, serve, serve_all, answers,
}

-- Any requests inside the device of a lawful driver are all served, with the answers of the array that the
-- device stores at first.
pub serve_all-answers :
    (B : BlockDriver) (rs : List Request) (d : B.Device)
    → IsLawful B
    → B.IsValid d
    → Fit B.Takes (length (B.stored d)) rs
    → serve_all B rs d ≡ some (answers rs (B.stored d))
unfolding serve_all serve
serve_all-answers B [] d lawful v fit = refl
serve_all-answers B (write first bs ∷ rs) d lawful v fit =
    let (d', ends, v', stored) = lawful.written d first bs v fit.0 fit.1 in
    let same : length (B.stored d') ≡ length (B.stored d) =
      ap length stored ∙ length-put (first * 512) bs (B.stored d) in
    rw (serve_all, serve, ends, serve_all-answers B rs d' lawful v' (rw same fit.2))
      (ap (λ (m : Bytes). some (bs ∷ answers rs m)) stored)
serve_all-answers B (read first bs ∷ rs) d lawful v fit =
    rw
      (
        serve_all,
        serve,
        lawful.was_read d first bs v fit.0 fit.1,
        serve_all-answers B rs d lawful v fit.2,
      )
      refl

-- Requests that one driver takes and another takes too.
pub Fit-mono :
    (T T' : List Bytes → Type 0) (n : ℕ) (rs : List Request)
    → ((bs : List Bytes) → T bs → T' bs)
    → Fit T n rs
    → Fit T' n rs
Fit-mono T T' n [] taken fit = tt
Fit-mono T T' n (write first bs ∷ rs) taken fit =
    (taken bs fit.0, fit.1, Fit-mono T T' n rs taken fit.2)
Fit-mono T T' n (read first bs ∷ rs) taken fit =
    (taken bs fit.0, fit.1, Fit-mono T T' n rs taken fit.2)
