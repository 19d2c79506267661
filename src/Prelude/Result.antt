-- ===== src/Prelude/Result.antt =====
-- Go's pair of a value and an error, where the value is nil or of no use beside an error.
use mathlib.Core.Path.{◌≡◌, refl}
use mathlib.Core.Bool.{Bool, true, false}
use mathlib.Core.Option.{Option, none, some}

pub data Result {ℓ} (E A : Type ℓ) : Type ℓ where
  ok : A → Result E A
  err : E → Result E A

module _ {E A B : Type 0} where
  infixl 5 ◌>>=◌
  abbrev pub ◌>>=◌ : Result E A → (A → Result E B) → Result E B
  ok a >>= f = f a
  err e >>= f = err e

module _ {E B : Type 0} where
  infixl 5 ◌>>◌
  abbrev pub ◌>>◌ : Result E (Unit {0}) → Result E B → Result E B
  m >> k = m >>= λ _. k

-- `if !test { return err }`
abbrev pub ensure : {E : Type 0} → Bool → E → Result E (Unit {0})
ensure true e = ok tt
ensure false e = err e

-- `if err := check; err != nil { return wrap(err) }`, where a check is an `Option` of an error.
abbrev pub ensure_none : {E D : Type 0} → (D → E) → Option D → Result E (Unit {0})
ensure_none wrap none = ok tt
ensure_none wrap (some d) = err (wrap d)

module _ {E A : Type 0} where
  abbrev as_ok : A → Result E A
  as_ok a = ok a

  pub ok_injective : {a b : A} → as_ok a ≡ ok b → a ≡ b
  ok_injective h = cc h

-- What a chain that succeeds has passed.
module _ {E A B : Type 0} where
  pub bind_passed :
      (m : Result E A) (f : A → Result E B) (b : B)
      → (m >>= f) ≡ ok b
      → (a : A) × (m ≡ ok a) × (f a ≡ ok b)
  bind_passed (ok a) f b h = (a, refl, h)
  bind_passed (err e) f b h = absurd (cc h)

module _ {E B : Type 0} where
  pub ensure_passed :
      (t : Bool) (e : E) (k : Result E B) (b : B)
      → (ensure t e >> k) ≡ ok b
      → (t ≡ true) × (k ≡ ok b)
  ensure_passed true e k b h = (refl, h)
  ensure_passed false e k b h = absurd (cc h)

  pub ensure_none_passed :
      {D : Type 0} (wrap : D → E) (o : Option D) (k : Result E B) (b : B)
      → (ensure_none wrap o >> k) ≡ ok b
      → (o ≡ none) × (k ≡ ok b)
  ensure_none_passed wrap none k b h = (refl, h)
  ensure_none_passed wrap (some d) k b h = absurd (cc h)
