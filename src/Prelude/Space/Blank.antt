-- ===== src/Prelude/Space/Blank.antt =====
-- A text that begins with another character than a space is not blank.
use Prim.Native.Char.{Char, code}
use Prim.Native.String.{String, ◌++◌}
use Prim.Native.String.append
use mathlib.Core.Path.{◌≡◌, refl, ◌∙◌, ap}
use mathlib.Core.Logic.{inl, inr}
use mathlib.Core.Bool.{Bool, true, false}
use text.Mathlib.Text.{◌==◌}
use text.Mathlib.TextEquality.{eq_iff}
use blueveil.Prelude.Tests.{Bool-cases}
use blueveil.Prelude.Space.{is_space, trim_left, trim_right, trim_space, is_blank}

is_nil : String → Bool
is_nil String.[] = true
is_nil (String.◌∷◌ c s) = false

is_nil-eq : (s : String) → is_nil s ≡ false → (s == "") ≡ false
unfolding is_nil
is_nil-eq s h = elim (Bool-cases (s == "")) [
  | inl e ↦ absurd (cc (ap is_nil ((eq_iff s "").0 e), h))
  | inr e ↦ e
]

trim_right_cons :
    (c : Char) (s : String)
    → is_space (code c) ≡ false
    → is_nil (trim_right (String.◌∷◌ c s)) ≡ false
unfolding trim_right is_nil
trim_right_cons c s h = elim (Bool-cases (trim_right s == "")) [
  | inl e ↦ rw (e, h) refl
  | inr e ↦ rw e refl
]

trim_space_cons :
    (c : Char) (s : String)
    → is_space (code c) ≡ false
    → is_nil (trim_space (String.◌∷◌ c s)) ≡ false
unfolding trim_space trim_left
trim_space_cons c s h = rw h (trim_right_cons c s h)

is_blank_cons :
    (c : Char) (s : String) → is_space (code c) ≡ false → is_blank (String.◌∷◌ c s) ≡ false
unfolding is_blank
is_blank_cons c s h = is_nil-eq (trim_space (String.◌∷◌ c s)) (trim_space_cons c s h)

pub is_blank-append :
    (c : Char) (s t : String) → is_space (code c) ≡ false → is_blank (String.◌∷◌ c s ++ t) ≡ false
is_blank-append c s t h = ap is_blank (append.cons c s t) ∙ is_blank_cons c (s ++ t) h
