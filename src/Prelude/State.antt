-- ===== src/Prelude/State.antt =====
-- Calls that change a state and may fail, for `do` blocks.
use mathlib.Core.Option.{Option, none, some}

abbrev pub M : Type 0 → Type 0 → Type 0
M S A = S → Option (A × S)

module _ {S A : Type 0} where
  abbrev pub pure : A → M S A
  pure a s = some (a, s)

  abbrev pub fault : M S A
  fault s = none

module _ {S A B : Type 0} where
  abbrev pub and_then : (A → M S B) → Option (A × S) → Option (B × S)
  and_then f none = none
  and_then f (some (a, s)) = f a s

  infixl 5 ◌>>=◌ ◌>>◌
  abbrev pub ◌>>=◌ : M S A → (A → M S B) → M S B
  ◌>>=◌ m f s = and_then f (m s)

  abbrev pub ◌>>◌ : M S A → M S B → M S B
  m >> k = m >>= λ _. k
