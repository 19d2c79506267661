-- ===== src/Prelude/Exec/After.antt =====
-- What holds of the state after an action, by the way the action is built.
use mathlib.Core.Path.{◌≡◌, refl}
use mathlib.Core.Bool.{Bool, true, false}
use blueveil.Prelude.Result.{Result, ok, err}
use blueveil.Prelude.Exec.{
  Outcome, returned, raised, panicked, Exec, pure, fail, lift, gets, modify, require, continue,
  ◌>>=◌, ◌>>◌,
}

-- `m`, started in `s`, leaves a state with `P`, however it ends.
pub record After {S E A : Type 0} (m : Exec S E A) (s : S) (P : S → Type 0) : Type 0 where
  pub holds : P (m s).1

module _ {S E A B : Type 0} {P : S → Type 0} where
  after_outcome :
      (r : Outcome E A) (k : A → Exec S E B) (s : S)
      → P s
      → ((a : A) → r ≡ returned a → After (k a) s P)
      → P (continue r k s).1
  after_outcome (returned a) k s h f = (f a refl).holds
  after_outcome (raised e) k s h f = h
  after_outcome panicked k s h f = h

  -- The rest may use how the first part ended, and the state that it left.
  pub after_bind :
      (m : Exec S E A) (k : A → Exec S E B) (s : S)
      → P (m s).1
      → ((a : A) → (m s).0 ≡ returned a → After (k a) (m s).1 P)
      → After (m >>= k) s P
  unfolding ◌>>=◌
  after_bind m k s h f = record { holds = after_outcome (m s).0 k (m s).1 h f }

  pub after_lift :
      (r : Result E A) (k : A → Exec S E B) (s : S)
      → P s
      → ((a : A) → r ≡ ok a → After (k a) s P)
      → After (lift r >>= k) s P
  unfolding ◌>>=◌
  after_lift (ok a) k s h f = record { holds = (f a refl).holds }
  after_lift (err e) k s h f = record { holds = h }

  -- The same for a result that is known.
  pub after_lift_ok :
      {r : Result E A} {a : A} (k : A → Exec S E B) (s : S)
      → r ≡ ok a
      → After (k a) s P
      → After (lift r >>= k) s P
  after_lift_ok k s e h = rw e (record { holds = unfold ◌>>=◌ in h.holds })

  pub after_gets :
      (g : S → A) (k : A → Exec S E B) (s : S) → After (k (g s)) s P → After (gets g >>= k) s P
  unfolding ◌>>=◌
  after_gets g k s h = record { holds = h.holds }

module _ {S E B : Type 0} {P : S → Type 0} where
  pub after_require :
      (b : Bool) (e : E) (k : Exec S E B) (s : S)
      → P s
      → (b ≡ true → After k s P)
      → After (require b e >> k) s P
  unfolding ◌>>=◌
  after_require true e k s h f = record { holds = (f refl).holds }
  after_require false e k s h f = record { holds = h }

  pub after_modify :
      (g : S → S) (k : Exec S E B) (s : S) → After k (g s) P → After (modify g >> k) s P
  unfolding ◌>>=◌
  after_modify g k s h = record { holds = h.holds }

module _ {S E A : Type 0} {P : S → Type 0} where
  pub after_pure : (a : A) (s : S) → P s → After (pure {S = S} {E = E} a) s P
  unfolding pure
  after_pure a s h = record { holds = h }

  pub after_fail : (e : E) (s : S) → P s → After (fail {S = S} {A = A} e) s P
  unfolding fail
  after_fail e s h = record { holds = h }
