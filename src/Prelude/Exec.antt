-- ===== src/Prelude/Exec.antt =====
-- Methods that change an object, may fail, and may panic. A change that was made before the failure
-- stays made, so that the state comes back beside an error and a panic too.
pub mod After
pub mod Keeps
use mathlib.Core.Bool.{Bool, true, false}
use blueveil.Prelude.Result.{Result, ok, err}

pub data Outcome {ℓ} (E A : Type ℓ) : Type ℓ where
  returned : A → Outcome E A
  raised : E → Outcome E A
  panicked : Outcome E A

abbrev pub Exec : Type 0 → Type 0 → Type 0 → Type 0
Exec S E A = S → Outcome E A × S

module _ {S E A : Type 0} where
  unfoldable pub pure : A → Exec S E A
  pure a s = (returned a, s)

  unfoldable pub fail : E → Exec S E A
  fail e s = (raised e, s)

  unfoldable pub lift : Result E A → Exec S E A
  lift (ok a) s = (returned a, s)
  lift (err e) s = (raised e, s)

  unfoldable pub gets : (S → A) → Exec S E A
  gets f s = (returned (f s), s)

module _ {S E : Type 0} where
  unfoldable pub modify : (S → S) → Exec S E (Unit {0})
  modify f s = (returned tt, f s)

  -- `if !test { return err }`
  unfoldable pub require : Bool → E → Exec S E (Unit {0})
  require true e s = (returned tt, s)
  require false e s = (raised e, s)

module _ {S E A B : Type 0} where
  abbrev pub continue : Outcome E A → (A → Exec S E B) → Exec S E B
  continue (returned a) f s = f a s
  continue (raised e) f s = (raised e, s)
  continue panicked f s = (panicked, s)

  infixl 5 ◌>>=◌ ◌>>◌
  -- Opening this opens the actions above too.
  unfoldable pub ◌>>=◌ : Exec S E A → (A → Exec S E B) → Exec S E B
  unfolding pure fail lift gets modify require
  ◌>>=◌ m f s = let (r, s') = m s in continue r f s'

  abbrev pub ◌>>◌ : Exec S E A → Exec S E B → Exec S E B
  m >> n = m >>= λ _. n
