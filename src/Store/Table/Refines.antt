-- ===== src/Store/Table/Refines.antt =====
-- A repository behaves like a function from ids to records.
use blueveil.Prelude.{
  ◌≡◌, refl, ◌∙◌, ap, inl, inr, Bool-cases, Option-cases, String, Option, none, some, List, [], ◌∷◌,
  ◌==◌, if◌then◌else◌,
}
use mathlib.Core.Path.{fun_ext}
use blueveil.Prelude.Dict.{Dict, get, put, has, empty, get-put, get-empty}
use blueveil.Prelude.Result.{Result, ok, err}
use blueveil.Store.Table.{StoreError, not_found, duplicate, invalid, Kind, create, save, lookup}

-- The calls of a client, and the answers: nothing for a write, a record for a read.
pub data Op (V : Type 0) : Type 0 where
  creates saves : Option V → Op V
  gets : String → Op V

abbrev pub Answer : Type 0 → Type 0
Answer V = Result StoreError (Option V)

-- The abstract store.
abbrev pub Store : Type 0 → Type 0
Store V = String → Option V

module _ {V : Type 0} where
  abbrev written : Dict V → Result StoreError (Dict V) → Answer V × Dict V
  written r (ok r') = (ok none, r')
  written r (err e) = (err e, r)

  abbrev found : Result StoreError V → Answer V
  found (ok v) = ok (some v)
  found (err e) = err e

  unfoldable pub perform : Kind V → Op V → Dict V → Answer V × Dict V
  perform kind (creates o) r = written r (create kind r o)
  perform kind (saves o) r = written r (save kind r o)
  perform kind (gets id) r = (found (lookup r id), r)

  unfoldable pub answers : Kind V → List (Op V) → Dict V → List (Answer V)
  answers kind [] r = []
  answers kind (op ∷ ops) r = let (a, r') = perform kind op r in a ∷ answers kind ops r'

  abbrev pub update : (String → Option V) → String → V → String → Option V
  update f k v j = if k == j then some v else f j

  abbrev spec_create : Store V → Kind V → V → Option V → Answer V × Store V
  spec_create f kind v none = (ok none, update f (kind.key v) v)
  spec_create f kind v (some w) = (err duplicate, f)

  abbrev spec_save : Store V → Kind V → V → Option V → Answer V × Store V
  spec_save f kind v none = (err not_found, f)
  spec_save f kind v (some w) = (ok none, update f (kind.key v) v)

  abbrev spec_read : Option V → Answer V
  spec_read none = err not_found
  spec_read (some v) = ok (some v)

  -- What a store promises: a record that is not valid is refused; creating wants the id to be free, and saving
  -- wants it to be taken; what was written last is read.
  unfoldable pub perform_spec : Kind V → Op V → Store V → Answer V × Store V
  perform_spec kind (creates none) f = (err invalid, f)
  perform_spec kind (creates (some v)) f =
      if kind.accepts v then spec_create f kind v (f (kind.key v)) else (err invalid, f)
  perform_spec kind (saves none) f = (err invalid, f)
  perform_spec kind (saves (some v)) f =
      if kind.accepts v then spec_save f kind v (f (kind.key v)) else (err invalid, f)
  perform_spec kind (gets id) f = (spec_read (f id), f)

  unfoldable pub answers_spec : Kind V → List (Op V) → Store V → List (Answer V)
  answers_spec kind [] f = []
  answers_spec kind (op ∷ ops) f =
      let (a, f') = perform_spec kind op f in a ∷ answers_spec kind ops f'

  get-put_ext : (r : Dict V) (k : String) (v : V) → get (put r k v) ≡ update (get r) k v
  get-put_ext r k v = fun_ext λ j. get-put r k j v

  -- One call: the same answer, and the same store after it.
  perform_lem :
      (kind : Kind V) (op : Op V) (r : Dict V)
      → ((perform kind op r).0 ≡ (perform_spec kind op (get r)).0)
        × (get (perform kind op r).1 ≡ (perform_spec kind op (get r)).1)
  unfolding perform perform_spec create save lookup has
  perform_lem kind (creates none) r = (refl, refl)
  perform_lem kind (creates (some v)) r = elim (Bool-cases (kind.accepts v)) [
    | inl a ↦ elim (Option-cases (get r (kind.key v))) [
      | inl f ↦ rw (a, f) (refl, get-put_ext r (kind.key v) v)
      | inr (w, f) ↦ rw (a, f) (refl, refl)
    ]
    | inr a ↦ rw a (refl, refl)
  ]
  perform_lem kind (saves none) r = (refl, refl)
  perform_lem kind (saves (some v)) r = elim (Bool-cases (kind.accepts v)) [
    | inl a ↦ elim (Option-cases (get r (kind.key v))) [
      | inl f ↦ rw (a, f) (refl, refl)
      | inr (w, f) ↦ rw (a, f) (refl, get-put_ext r (kind.key v) v)
    ]
    | inr a ↦ rw a (refl, refl)
  ]
  perform_lem kind (gets id) r = elim (Option-cases (get r id)) [
    | inl f ↦ rw f (refl, refl)
    | inr (w, f) ↦ rw f (refl, refl)
  ]

  answers_from_lem :
      (kind : Kind V) (ops : List (Op V)) (r : Dict V)
      → answers kind ops r ≡ answers_spec kind ops (get r)
  unfolding answers answers_spec
  answers_from_lem kind [] r = refl
  answers_from_lem kind (op ∷ ops) r =
      let (a, s) = perform_lem kind op r in
      let ih = answers_from_lem kind ops (perform kind op r).1 in
      rw (← a, ← s) (ap (λ l. (perform kind op r).0 ∷ l) ih)

  -- Whatever its validator and its ids are, a new repository answers any calls of Create, Save and Get as
  -- the abstract store does that is a function from ids to records.
  pub answers_refine :
      (kind : Kind V) (ops : List (Op V))
      → answers kind ops empty ≡ answers_spec kind ops (λ id. none)
  answers_refine kind ops =
      answers_from_lem kind ops empty
      ∙ ap (answers_spec kind ops) (fun_ext λ id. get-empty {V = V} id)
