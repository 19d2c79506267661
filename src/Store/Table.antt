-- ===== src/Store/Table.antt =====
-- The code that the repositories of store/memory.go share in form: a map from ids to records that its
-- methods check before they write. sync.Mutex makes each method one step. A record here is a value: that
-- a caller can reach into what is stored, where a repository does not clone its records, is not seen.
pub mod Sound
pub mod Refines
use blueveil.Prelude.{
  ◌≡◌, refl, sym, ◌∙◌, subst, Bool, true, false, not, Option, none, some, String, List, [], ◌∷◌,
  ◌==◌, if◌then◌else◌, arith, eq_iff,
}
use blueveil.Prelude.Dict.{Dict, get, put, has, empty, listing, get-put, get-empty}
use blueveil.Prelude.Result.{Result, ok, err, ensure, ◌>>◌}
use blueveil.Contract.Check.{Check}

-- The sentinels of store/store.go.
pub data StoreError : Type 0 where
  not_found duplicate invalid corrupted : StoreError

-- What a repository keeps: the id of a record, and its validator.
pub record Kind (V : Type 0) : Type 0 where
  pub key : V → String
  pub accepts : V → Bool

abbrev pub passes : Check → Bool
passes none = true
passes (some e) = false

module _ {V : Type 0} where
  -- Append and Create: the map after it. The pointer may be nil.
  unfoldable pub create : Kind V → Dict V → Option V → Result StoreError (Dict V)
  create kind r none = err invalid
  create kind r (some v) = do
    ensure (kind.accepts v) invalid
    ensure (not (has r (kind.key v))) duplicate
    ok (put r (kind.key v) v)

  -- Save
  unfoldable pub save : Kind V → Dict V → Option V → Result StoreError (Dict V)
  save kind r none = err invalid
  save kind r (some v) = do
    ensure (kind.accepts v) invalid
    ensure (has r (kind.key v)) not_found
    ok (put r (kind.key v) v)

  abbrev or_missing : Option V → Result StoreError V
  or_missing none = err not_found
  or_missing (some v) = ok v

  -- Get
  unfoldable pub lookup : Dict V → String → Result StoreError V
  lookup r id = or_missing (get r id)
