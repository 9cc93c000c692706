-- ===== src/Effect.antt =====
-- Calls that read and change a state, may end the process, or run into undefined behaviour.
use ex2_file_system.Base.{ℕ, Option, none, some}

pub data Outcome (S A : Type 0) : Type 0 where
  -- The call returned.
  done : A → S → Outcome S A
  -- The process ended by `exit`, with its status as an `int`.
  exits : ℕ → S → Outcome S A
  -- An access outside an object, or another fault.
  undefined : Outcome S A

abbrev pub Run : Type 0 → Type 0 → Type 0
Run S A = S → Outcome S A

module _ {S A : Type 0} where
  abbrev pub pure : A → Run S A
  pure a s = done a s

  abbrev pub exit : ℕ → Run S A
  exit status s = exits status s

  -- A step that always returns, such as a call of the disk.
  abbrev pub act : (S → A × S) → Run S A
  act f s = done (f s).0 (f s).1

  -- A computation on values, with `none` for undefined behaviour.
  abbrev pub lift : Option A → Run S A
  lift none s = undefined
  lift (some a) s = done a s

module _ {S A B : Type 0} where
  abbrev pub and_then : Outcome S A → (A → Run S B) → Outcome S B
  and_then (done a s) k = k a s
  and_then (exits status s) k = exits status s
  and_then undefined k = undefined

  infixl 5 ◌>>=◌ ◌>>◌
  abbrev pub ◌>>=◌ : Run S A → (A → Run S B) → Run S B
  m >>= k = λ s. and_then (m s) k

  abbrev pub ◌>>◌ : Run S A → Run S B → Run S B
  m >> n = m >>= λ _. n
