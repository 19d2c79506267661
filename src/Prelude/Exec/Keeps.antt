-- ===== src/Prelude/Exec/Keeps.antt =====
-- Invariants of actions, one rule for each way to build an action: a block is kept by `search`.
use mathlib.Core.Bool.{Bool, true, false}
use blueveil.Prelude.Result.{Result, ok, err}
use blueveil.Prelude.Exec.{
  Outcome, returned, raised, panicked, Exec, pure, fail, lift, gets, require, continue, ◌>>=◌,
}

-- `m` keeps `P`, however it ends.
pub record Keeps {S E A : Type 0} (P : S → Type 0) (m : Exec S E A) : Type 0 where
  pub at : (s : S) → P s → P (m s).1

module _ {S E A : Type 0} {P : S → Type 0} where
  pub Keeps-pure : (a : A) → Keeps P (pure {S = S} {E = E} a)
  unfolding pure
  Keeps-pure a = record { at = λ s h. h }

  pub Keeps-fail : (e : E) → Keeps P (fail {S = S} {A = A} e)
  unfolding fail
  Keeps-fail e = record { at = λ s h. h }

  pub Keeps-gets : (f : S → A) → Keeps P (gets {S = S} {E = E} f)
  unfolding gets
  Keeps-gets f = record { at = λ s h. h }

  pub Keeps-lift : (r : Result E A) → Keeps P (lift {S = S} r)
  unfolding lift
  Keeps-lift (ok a) = record { at = λ s h. h }
  Keeps-lift (err e) = record { at = λ s h. h }

module _ {S E : Type 0} {P : S → Type 0} where
  pub Keeps-require : (b : Bool) (e : E) → Keeps P (require {S = S} b e)
  unfolding require
  Keeps-require true e = record { at = λ s h. h }
  Keeps-require false e = record { at = λ s h. h }

module _ {S E A B : Type 0} {P : S → Type 0} where
  continue-kept :
      (r : Outcome E A) (k : A → Exec S E B) (s : S)
      → ((a : A) → Keeps P (k a))
      → P s
      → P (continue r k s).1
  continue-kept (returned a) k s f h = (f a).at s h
  continue-kept (raised e) k s f h = h
  continue-kept panicked k s f h = h

  pub Keeps-bind :
      (m : Exec S E A) (k : A → Exec S E B)
      → Keeps P m
      → ((a : A) → Keeps P (k a))
      → Keeps P (m >>= k)
  unfolding ◌>>=◌
  Keeps-bind m k km kk = record { at = λ s h. continue-kept (m s).0 k (m s).1 kk (km.at s h) }

pub ruleset keeps_rules =
    (Keeps-pure, Keeps-fail, Keeps-gets, Keeps-lift, Keeps-require, Keeps-bind)
