-- ===== src/Store/Memory/Assets.antt =====
-- memoryAsset of store/memory.go: assets, unique by id and by type and name.
pub mod Identity
pub mod Refusals
use native.Mathlib.Decide.{ℕ_discrete}
use blueveil.Prelude.{
  Bool, true, false, ◌&&◌, not, String, Option, none, some, List, [], ◌∷◌, ◌==◌, if◌then◌else◌,
}
use blueveil.Prelude.Dict.{Dict, put, has, any_entry, listing}
use blueveil.Prelude.Library.{Library}
use blueveil.Prelude.Result.{Result, ok, err, ensure, ◌>>◌}
use blueveil.Contract.Equality.{ℤ-discrete, same}
use blueveil.Contract.Asset.{validate_asset}
use blueveil.Asset.Message.{AssetType, AssetStatus, Asset, AssetStatus-discrete}
use blueveil.Asset.Canonical.{Net}
use blueveil.Asset.Discovery.{is_canonical}
use blueveil.Store.Table.{Kind, StoreError, invalid, duplicate, not_found, passes, lookup}

unfoldable pub AssetType-discrete : Discrete AssetType
unfolding ℤ-discrete ℕ_discrete
AssetType-discrete = hlevel ℕ_discrete

unfoldable pub same_identity : Asset → Asset → Bool
same_identity a b = same AssetType-discrete b.type a.type && b.name == a.name

-- The test of the loop in Save.
abbrev pub steals : Asset → String → Asset → Bool
steals a id b = not (id == a.id) && same_identity a b

module _ (lib : Library) (net : Net) where
  abbrev pub kind : Kind Asset
  kind = record {
    key = λ a. a.id;
    accepts = λ a. passes (validate_asset (some a)) && is_canonical lib net a;
  }

  -- Create
  unfoldable pub create : Dict Asset → Option Asset → Result StoreError (Dict Asset)
  create r none = err invalid
  create r (some a) = do
    ensure (kind.accepts a) invalid
    ensure (not (has r a.id)) duplicate
    ensure (not (any_entry (λ id b. same_identity a b) r)) duplicate
    ok (put r a.id a)

  -- Save
  unfoldable pub save : Dict Asset → Option Asset → Result StoreError (Dict Asset)
  save r none = err invalid
  save r (some a) = do
    ensure (kind.accepts a) invalid
    ensure (has r a.id) not_found
    ensure (not (any_entry (steals a) r)) duplicate
    ok (put r a.id a)

-- Get
unfoldable pub get : Dict Asset → String → Result StoreError Asset
get r id = lookup r id

abbrev fits_type : Option AssetType → Asset → Bool
fits_type none a = true
fits_type (some t) a = same AssetType-discrete a.type t

abbrev fits_status : Option AssetStatus → Asset → Bool
fits_status none a = true
fits_status (some s) a = same AssetStatus-discrete a.status s

select : Option AssetType → Option AssetStatus → List Asset → List Asset
select t s [] = []
select t s (a ∷ as') =
    let rest = select t s as' in if fits_type t a && fits_status s a then a ∷ rest else rest

unfoldable pub list_where : Dict Asset → Option AssetType → Option AssetStatus → List Asset
unfolding select
list_where r t s = select t s (listing r)

-- List, ListByType, ListByStatus
unfoldable pub list : Dict Asset → List Asset
list r = list_where r none none

unfoldable pub list_by_type : Dict Asset → AssetType → List Asset
list_by_type r t = list_where r (some t) none

unfoldable pub list_by_status : Dict Asset → AssetStatus → List Asset
list_by_status r s = list_where r none (some s)
