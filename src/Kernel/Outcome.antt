-- ===== src/Kernel/Outcome.antt =====
-- How a call of a handler ends, and the state monad in which the handlers are written.

-- `blocked`: the caller waits for a mutex that is held. `misuse`: a mutex is unlocked that is not
-- held. `fault`: an access outside an array. The last two are undefined in C.
pub data Outcome (S A : Type 0) : Type 0 where
  done : A → S → Outcome S A
  blocked misuse fault : Outcome S A

abbrev pub M : Type 0 → Type 0 → Type 0
M S A = S → Outcome S A

abbrev pub pure : {S A : Type 0} → A → M S A
pure a s = done a s

infixl 5 ◌>>=◌ ◌>>◌
abbrev pub ◌>>=◌ : {S A B : Type 0} → M S A → (A → M S B) → M S B
◌>>=◌ m f s = elim (m s) [
  | done a s' ↦ f a s'
  | blocked ↦ blocked
  | misuse ↦ misuse
  | fault ↦ fault
]

abbrev pub ◌>>◌ : {S A B : Type 0} → M S A → M S B → M S B
m >> k = m >>= λ _. k
