-- ===== src/Prelude/Dict/Listing.antt =====
-- The listing of a map has each of its values once, in the order of their keys.
use mathlib.Core.Path.{◌≡◌, refl, sym, ◌∙◌, ap, subst}
use mathlib.Core.Logic.{inl, inr}
use mathlib.Core.Bool.{true}
use mathlib.Core.Option.{some}
use mathlib.Core.List.{List, [], ◌∷◌}
use Prim.Native.String.{String}
use native.Mathlib.Omega.{arith}
use text.Mathlib.TextEquality.{eq_iff}
use blueveil.Prelude.Tests.{Option-cases}
use blueveil.Prelude.Lists.{All}
use blueveil.Prelude.Names.{contains, sort, contains-sort}
use blueveil.Prelude.Names.Sorted.{NoDup, IsAscending, sort-IsAscending}
use blueveil.Prelude.Dict.{Dict, get, keys, values_at, listing, contains-keys, get-keys}

module _ {V : Type 0} where
  abbrev pub ids_of : (V → String) → List V → List String
  ids_of key [] = []
  ids_of key (v ∷ vs) = key v ∷ ids_of key vs

  -- vs has what d has, and nothing else, in the order of the keys.
  pub record Lists (key : V → String) (d : Dict V) (vs : List V) : Type 0 where
    pub ascending : IsAscending (ids_of key vs)
    pub sound : All (λ v. get d (key v) ≡ some v) vs
    pub complete : (id : String) (v : V) → get d id ≡ some v → contains (ids_of key vs) id ≡ true

module _ {V : Type 0} (key : V → String) (d : Dict V)
    (own : (id : String) (v : V) → get d id ≡ some v → key v ≡ id) where
  ids_of-values_at :
      (ks : List String)
      → All (λ k. (v : V) × (get d k ≡ some v)) ks
      → ids_of key (values_at d ks) ≡ ks
  unfolding values_at
  ids_of-values_at [] h = refl
  ids_of-values_at (k ∷ ks) ((v, g), hs) = rw g (
      ap (λ i. i ∷ ids_of key (values_at d ks)) (own k v g)
      ∙ ap (λ l. k ∷ l) (ids_of-values_at ks hs))

  values_at_sound : (ks : List String) → All (λ v. get d (key v) ≡ some v) (values_at d ks)
  unfolding values_at
  values_at_sound [] = tt
  values_at_sound (k ∷ ks) = elim (Option-cases (get d k)) [
    | inl g ↦ rw g (values_at_sound ks)
    | inr (v, g) ↦ rw g (subst (λ i. get d i ≡ some v) (sym (own k v g)) g, values_at_sound ks)
  ]

  present_of :
      (ks : List String)
      → ((k : String) → contains ks k ≡ true → contains (keys d) k ≡ true)
      → All (λ k. (v : V) × (get d k ≡ some v)) ks
  present_of [] h = tt
  present_of (k ∷ ks) h =
      (get-keys d k (h k (ground (arith, eq_iff k k))), present_of ks λ j c. h j (ground arith))

  -- Where each value stands under its own key and each key stands once, the listing is in order.
  pub listing-Lists : NoDup (keys d) → Lists key d (listing d)
  unfolding listing
  listing-Lists n =
      let present = present_of (sort (keys d)) λ k c. sym (contains-sort (keys d) k) ∙ c in
      let ids = ids_of-values_at (sort (keys d)) present in
      record {
        ascending = subst (λ l. IsAscending l) (sym ids) (sort-IsAscending (keys d) n);
        sound = values_at_sound (sort (keys d));
        complete = λ id v g.
            ap (λ l. contains l id) ids ∙ (contains-sort (keys d) id ∙ contains-keys d id v g);
      }
