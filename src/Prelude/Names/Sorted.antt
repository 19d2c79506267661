-- ===== src/Prelude/Names/Sorted.antt =====
-- A sorted list of names without repetition is strictly ascending.
use Prim.Native.Nat.{ℕ, Ordering, compare as compare_ℕ}
use Prim.Native.Char.{code}
use Prim.Native.String.{String, compare, then as first_of}
use Prim.Native.String.compare
use mathlib.Core.Path.{◌≡◌, refl, sym, ◌∙◌, ap}
use mathlib.Core.Logic.{◌⊎◌, inl, inr}
use mathlib.Core.Bool.{false}
use mathlib.Core.List.{List, [], ◌∷◌}
use native.Mathlib.Omega.{arith}
use text.Mathlib.TextEquality.{eq_iff, path_by_compare}
use blueveil.Prelude.Names.{contains, insert, sort, contains-sort}

abbrev flip : Ordering → Ordering
flip Ordering.lt = Ordering.gt
flip Ordering.eq = Ordering.eq
flip Ordering.gt = Ordering.lt

flip-first : (o p : Ordering) → flip (first_of o p) ≡ first_of (flip o) (flip p)
flip-first Ordering.lt p = refl
flip-first Ordering.eq p = refl
flip-first Ordering.gt p = refl

flip-compare_ℕ : (m n : ℕ) → compare_ℕ n m ≡ flip (compare_ℕ m n)
flip-compare_ℕ m n = ground arith

flip-of_first :
    (m n : ℕ) (o p : Ordering)
    → p ≡ flip o
    → first_of (compare_ℕ n m) p ≡ flip (first_of (compare_ℕ m n) o)
flip-of_first m n o p h = rw (flip-compare_ℕ m n, h) (sym (flip-first (compare_ℕ m n) o))

compare-flip : (s t : String) → compare t s ≡ flip (compare s t)
compare-flip String.[] String.[] = compare.nil-nil ∙ ap flip (sym compare.nil-nil)
compare-flip String.[] (String.◌∷◌ d t) =
    compare.cons-nil d t ∙ ap flip (sym (compare.nil-cons d t))
compare-flip (String.◌∷◌ c s) String.[] =
    compare.nil-cons c s ∙ ap flip (sym (compare.cons-nil c s))
compare-flip (String.◌∷◌ c s) (String.◌∷◌ d t) =
    compare.cons-cons d c t s
    ∙ (flip-of_first (code c) (code d) (compare s t) (compare t s) (compare-flip s t)
        ∙ ap flip (sym (compare.cons-cons c d s t)))

abbrev pub NoDup : List String → Type 0
NoDup [] = Unit
NoDup (x ∷ xs) = (contains xs x ≡ false) × NoDup xs

abbrev IsAbove : String → List String → Type 0
IsAbove x [] = Unit
IsAbove x (y ∷ ys) = compare x y ≡ Ordering.lt

-- Each name is less than the next.
abbrev pub IsAscending : List String → Type 0
IsAscending [] = Unit
IsAscending (x ∷ xs) = IsAbove x xs × IsAscending xs

Ordering-cases : (o : Ordering) → (o ≡ Ordering.lt) ⊎ ((o ≡ Ordering.eq) ⊎ (o ≡ Ordering.gt))
Ordering-cases Ordering.lt = inl refl
Ordering-cases Ordering.eq = inr (inl refl)
Ordering-cases Ordering.gt = inr (inr refl)

-- a is greater than x.
insert-IsAbove :
    (a x : String) (xs : List String)
    → compare a x ≡ Ordering.gt
    → IsAbove x xs
    → IsAbove x (insert a xs)
unfolding insert
insert-IsAbove a x [] g h = rw (compare-flip a x, g) refl
insert-IsAbove a x (y ∷ ys) g h = ground (arith, compare-flip a x)

insert-IsAscending :
    (a : String) (xs : List String)
    → contains xs a ≡ false
    → IsAscending xs
    → IsAscending (insert a xs)
unfolding insert
insert-IsAscending a [] c h = (tt, tt)
insert-IsAscending a (x ∷ xs) c h = elim (Ordering-cases (compare a x)) [
  | inl l ↦ ground (arith, l, h)
  | inr (inl e) ↦ ground (arith, eq_iff x a, path_by_compare a x e)
  | inr (inr g) ↦
      let rest = insert-IsAscending a xs (ground arith) h.1 in
      let above = insert-IsAbove a x xs g h.0 in ground arith
]

pub sort-IsAscending : (xs : List String) → NoDup xs → IsAscending (sort xs)
unfolding sort
sort-IsAscending [] h = tt
sort-IsAscending (x ∷ xs) h =
    insert-IsAscending x (sort xs) (contains-sort xs x ∙ h.0) (sort-IsAscending xs h.1)
