-- ===== src/Store/Memory/Assets/Identity.antt =====
-- No two assets have one type and one name.
use blueveil.Prelude.{
  ◌≡◌, refl, sym, ◌⊎◌, inl, inr, Bool-cases, true, false, Option, none, some, String, arith, eq_iff,
}
use blueveil.Prelude.Dict.{
  Dict, get, put, has, empty, any_entry, any_entry-false, get-put, get-empty,
}
use blueveil.Prelude.Library.{Library}
use blueveil.Prelude.Result.{ok}
use blueveil.Contract.Equality.{same_iff}
use blueveil.Asset.Message.{Asset}
use blueveil.Asset.Canonical.{Net}
use blueveil.Store.Table.Sound.{Holds, put-Holds, Persists, Persists-refl, put-Persists, settled}
use blueveil.Store.Memory.Assets.{AssetType-discrete, same_identity, steals, kind, create, save}

-- The id of an asset is determined by its type and name.
pub record IsUnique (r : Dict Asset) : Type 0 where
  pub one :
      (id j : String) (a b : Asset)
      → get r id ≡ some a
      → get r j ≡ some b
      → a.type ≡ b.type
      → a.name ≡ b.name
      → id ≡ j

same_identity_lem :
    (a b : Asset) → same_identity a b ≡ false → a.type ≡ b.type → a.name ≡ b.name → ⊥
unfolding same_identity
same_identity_lem a b h t n =
    ground (
      arith,
      (same_iff AssetType-discrete b.type a.type).1 (sym t),
      (eq_iff b.name a.name).1 (sym n),
    )

-- An asset whose identity no other has may be written.
put-IsUnique :
    (r : Dict Asset) (a : Asset)
    → IsUnique r
    → ((j : String) (b : Asset) → get r j ≡ some b → steals a j b ≡ false)
    → IsUnique (put r a.id a)
put-IsUnique r a u free = record {
  one = λ id j b c hb hc t n. ground (
    arith,
    get-put r a.id id a,
    get-put r a.id j a,
    eq_iff a.id id,
    eq_iff a.id j,
    eq_iff id a.id,
    eq_iff j a.id,
    u.one id j b c,
    free id b,
    free j c,
    same_identity_lem a b,
    same_identity_lem a c,
  );
}

module _ (lib : Library) (net : Net) where
  -- What create and save have done: nothing, or a valid asset with a free identity is written.
  create_outcome :
      (r : Dict Asset) (o : Option Asset)
      → (settled r (create lib net r o) ≡ r)
        ⊎ ((a : Asset) × ((kind lib net).accepts a ≡ true)
            × (any_entry (λ id b. same_identity a b) r ≡ false)
            × (create lib net r o ≡ ok (put r a.id a)))
  unfolding create
  create_outcome r none = inl refl
  create_outcome r (some a) = elim (Bool-cases ((kind lib net).accepts a)) [
    | inl v ↦ elim (Bool-cases (has r a.id)) [
      | inl h ↦ inl (rw (v, h) refl)
      | inr h ↦ elim (Bool-cases (any_entry (λ id b. same_identity a b) r)) [
        | inl s ↦ inl (rw (v, h, s) refl)
        | inr s ↦ inr (a, v, s, (rw (v, h, s) refl))
      ]
    ]
    | inr v ↦ inl (rw v refl)
  ]

  save_outcome :
      (r : Dict Asset) (o : Option Asset)
      → (settled r (save lib net r o) ≡ r)
        ⊎ ((a : Asset) × ((kind lib net).accepts a ≡ true)
            × (any_entry (steals a) r ≡ false)
            × (save lib net r o ≡ ok (put r a.id a)))
  unfolding save
  save_outcome r none = inl refl
  save_outcome r (some a) = elim (Bool-cases ((kind lib net).accepts a)) [
    | inl v ↦ elim (Bool-cases (has r a.id)) [
      | inl h ↦ elim (Bool-cases (any_entry (steals a) r)) [
        | inl s ↦ inl (rw (v, h, s) refl)
        | inr s ↦ inr (a, v, s, (rw (v, h, s) refl))
      ]
      | inr h ↦ inl (rw (v, h) refl)
    ]
    | inr v ↦ inl (rw v refl)
  ]

  pub create_asset-Holds :
      (r : Dict Asset) (o : Option Asset)
      → Holds (kind lib net) r
      → Holds (kind lib net) (settled r (create lib net r o))
  create_asset-Holds r o h = elim (create_outcome r o) [
    | inl e ↦ rw e h
    | inr (a, v, _, e) ↦ rw e (put-Holds (kind lib net) r a h v)
  ]

  pub save_asset-Holds :
      (r : Dict Asset) (o : Option Asset)
      → Holds (kind lib net) r
      → Holds (kind lib net) (settled r (save lib net r o))
  save_asset-Holds r o h = elim (save_outcome r o) [
    | inl e ↦ rw e h
    | inr (a, v, _, e) ↦ rw e (put-Holds (kind lib net) r a h v)
  ]

  pub create_asset-Persists :
      (r : Dict Asset) (o : Option Asset) → Persists r (settled r (create lib net r o))
  create_asset-Persists r o = elim (create_outcome r o) [
    | inl e ↦ rw e (Persists-refl r)
    | inr (a, _, _, e) ↦ rw e (put-Persists r a.id a)
  ]

  pub save_asset-Persists :
      (r : Dict Asset) (o : Option Asset) → Persists r (settled r (save lib net r o))
  save_asset-Persists r o = elim (save_outcome r o) [
    | inl e ↦ rw e (Persists-refl r)
    | inr (a, _, _, e) ↦ rw e (put-Persists r a.id a)
  ]

  pub create-IsUnique :
      (r : Dict Asset) (o : Option Asset) → IsUnique r → IsUnique (settled r (create lib net r o))
  create-IsUnique r o u = elim (create_outcome r o) [
    | inl e ↦ rw e u
    | inr (a, _, s, e) ↦ rw e (
        put-IsUnique r a u λ j b g.
          ground
            (arith, any_entry-false (λ (id : String) (b : Asset). same_identity a b) r j b g s))
  ]

  pub save-IsUnique :
      (r : Dict Asset) (o : Option Asset) → IsUnique r → IsUnique (settled r (save lib net r o))
  save-IsUnique r o u = elim (save_outcome r o) [
    | inl e ↦ rw e u
    | inr (a, _, s, e) ↦ rw e (put-IsUnique r a u λ j b g. any_entry-false (steals a) r j b g s)
  ]

pub empty-IsUnique : IsUnique empty
empty-IsUnique = record { one = λ id j a b ha hb t n. cc (ha, get-empty {V = Asset} id) }
