-- ===== src/Store/Table/Sound.antt =====
-- What the methods of a repository keep and refuse.
use blueveil.Prelude.{
  ◌≡◌, refl, ◌⊎◌, inl, inr, Bool-cases, true, false, Option, none, some, String, arith, eq_iff,
}
use blueveil.Prelude.Dict.{
  Dict, get, put, has, empty, get-put, get-empty, keys, listing, put-NoDup, empty-NoDup,
}
use blueveil.Prelude.Dict.Listing.{Lists, listing-Lists}
use blueveil.Prelude.Names.Sorted.{NoDup}
use blueveil.Prelude.Result.{Result, ok, err}
use blueveil.Store.Table.{Kind, create, save}

-- Every record is valid and stands under its own id.
pub record Holds {V : Type 0} (kind : Kind V) (r : Dict V) : Type 0 where
  pub own : (id : String) (v : V) → get r id ≡ some v → (kind.key v ≡ id) × (kind.accepts v ≡ true)
  pub distinct : NoDup (keys r)

-- Every record of r is in r', as it was.
pub record Extends {V : Type 0} (r r' : Dict V) : Type 0 where
  pub kept : (id : String) (v : V) → get r id ≡ some v → get r' id ≡ some v

-- Every id of r is in r'.
pub record Persists {V : Type 0} (r r' : Dict V) : Type 0 where
  pub kept_id : (id : String) → has r id ≡ true → has r' id ≡ true

-- The state after a call that may fail.
abbrev pub settled : {S E : Type 0} → S → Result E S → S
settled s (ok s') = s'
settled s (err e) = s

module _ {V : Type 0} where
  pub put-Holds :
      (kind : Kind V) (r : Dict V) (v : V)
      → Holds kind r
      → kind.accepts v ≡ true
      → Holds kind (put r (kind.key v) v)
  put-Holds kind r v h a = record {
    own = λ id w e.
        ground (arith, get-put r (kind.key v) id v, eq_iff (kind.key v) id, h.own id w, a);
    distinct = put-NoDup r (kind.key v) v h.distinct;
  }

  pub put-Extends : (r : Dict V) (k : String) (v : V) → has r k ≡ false → Extends r (put r k v)
  unfolding has
  put-Extends r k v e = record { kept = λ id w h. ground (arith, get-put r k id v, eq_iff k id) }

  pub put-Persists : (r : Dict V) (k : String) (v : V) → Persists r (put r k v)
  unfolding has
  put-Persists r k v = record { kept_id = λ id h. ground (arith, get-put r k id v) }

  -- What create and save have done: nothing, or a valid record is written under its id.
  pub create_outcome :
      (kind : Kind V) (r : Dict V) (o : Option V)
      → (settled r (create kind r o) ≡ r)
        ⊎ ((v : V) × (o ≡ some v)
            × (kind.accepts v ≡ true)
            × (has r (kind.key v) ≡ false)
            × (create kind r o ≡ ok (put r (kind.key v) v)))
  unfolding create
  create_outcome kind r none = inl refl
  create_outcome kind r (some v) = elim (Bool-cases (kind.accepts v)) [
    | inl a ↦ elim (Bool-cases (has r (kind.key v))) [
      | inl h ↦ inl (rw (a, h) refl)
      | inr h ↦ inr (v, refl, a, h, (rw (a, h) refl))
    ]
    | inr a ↦ inl (rw a refl)
  ]

  pub save_outcome :
      (kind : Kind V) (r : Dict V) (o : Option V)
      → (settled r (save kind r o) ≡ r)
        ⊎ ((v : V) × (o ≡ some v)
            × (kind.accepts v ≡ true)
            × (has r (kind.key v) ≡ true)
            × (save kind r o ≡ ok (put r (kind.key v) v)))
  unfolding save
  save_outcome kind r none = inl refl
  save_outcome kind r (some v) = elim (Bool-cases (kind.accepts v)) [
    | inl a ↦ elim (Bool-cases (has r (kind.key v))) [
      | inl h ↦ inr (v, refl, a, h, (rw (a, h) refl))
      | inr h ↦ inl (rw (a, h) refl)
    ]
    | inr a ↦ inl (rw a refl)
  ]

  pub create-Holds :
      (kind : Kind V) (r : Dict V) (o : Option V)
      → Holds kind r
      → Holds kind (settled r (create kind r o))
  create-Holds kind r o h = elim (create_outcome kind r o) [
    | inl e ↦ rw e h
    | inr (v, _, a, _, e) ↦ rw e (put-Holds kind r v h a)
  ]

  pub save-Holds :
      (kind : Kind V) (r : Dict V) (o : Option V)
      → Holds kind r
      → Holds kind (settled r (save kind r o))
  save-Holds kind r o h = elim (save_outcome kind r o) [
    | inl e ↦ rw e h
    | inr (v, _, a, _, e) ↦ rw e (put-Holds kind r v h a)
  ]

  pub Extends-refl : (r : Dict V) → Extends r r
  Extends-refl r = record { kept = λ id v h. h }

  pub Extends-trans : {r s t : Dict V} → Extends r s → Extends s t → Extends r t
  Extends-trans a b = record { kept = λ id v h. b.kept id v (a.kept id v h) }

  pub Persists-refl : (r : Dict V) → Persists r r
  Persists-refl r = record { kept_id = λ id h. h }

  pub Persists-trans : {r s t : Dict V} → Persists r s → Persists s t → Persists r t
  Persists-trans a b = record { kept_id = λ id h. b.kept_id id (a.kept_id id h) }

  pub create-Extends :
      (kind : Kind V) (r : Dict V) (o : Option V) → Extends r (settled r (create kind r o))
  create-Extends kind r o = elim (create_outcome kind r o) [
    | inl e ↦ rw e (Extends-refl r)
    | inr (v, _, _, f, e) ↦ rw e (put-Extends r (kind.key v) v f)
  ]

  pub create-Persists :
      (kind : Kind V) (r : Dict V) (o : Option V) → Persists r (settled r (create kind r o))
  create-Persists kind r o = elim (create_outcome kind r o) [
    | inl e ↦ rw e (Persists-refl r)
    | inr (v, _, _, _, e) ↦ rw e (put-Persists r (kind.key v) v)
  ]

  pub save-Persists :
      (kind : Kind V) (r : Dict V) (o : Option V) → Persists r (settled r (save kind r o))
  save-Persists kind r o = elim (save_outcome kind r o) [
    | inl e ↦ rw e (Persists-refl r)
    | inr (v, _, _, _, e) ↦ rw e (put-Persists r (kind.key v) v)
  ]

  pub empty-Holds : (kind : Kind V) → Holds kind empty
  empty-Holds kind = record {
    own = λ id v h. cc (h, get-empty {V = V} id);
    distinct = empty-NoDup V;
  }

  -- Where every record stands under its own id, List gives each record once, in the order of the ids.
  pub Holds-Lists : (kind : Kind V) (r : Dict V) → Holds kind r → Lists kind.key r (listing r)
  Holds-Lists kind r h = listing-Lists kind.key r (λ id v g. (h.own id v g).0) h.distinct
