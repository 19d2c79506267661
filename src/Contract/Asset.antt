-- ===== src/Contract/Asset.antt =====
-- contract/asset.go: assets.
use blueveil.Prelude.{◌||◌, String, Option, none, some, List, [], ◌∷◌, ◌==◌, if◌then◌else◌}
use blueveil.Prelude.Time.{Timestamp, before_stamp}
use blueveil.Contract.Enums.{
  Standing, explicit, unset, unlisted, Enumeration, standing, severity_enumeration,
}
use blueveil.Contract.Check.{
  Check, ◌>>◌, rejected, is_nil, empty, unknown_value, missing, invalid, non_empty, check_value,
}
use blueveil.Asset.Message.{AssetType, AssetStatus, Asset}

abbrev type_standing : AssetType → Standing
type_standing AssetType.unspecified = unset
type_standing (AssetType.out_of_range _) = unlisted
type_standing _ = explicit

abbrev asset_status_standing : AssetStatus → Standing
asset_status_standing AssetStatus.unspecified = unset
asset_status_standing (AssetStatus.out_of_range _) = unlisted
asset_status_standing _ = explicit

instance abbrev pub type_enumeration : Enumeration AssetType
type_enumeration = record { standing_of = type_standing }

instance abbrev pub asset_status_enumeration : Enumeration AssetStatus
asset_status_enumeration = record { standing_of = asset_status_standing }

-- The loop over the identifiers.
unfoldable pub check_identifiers : List (String × String) → Check
check_identifiers [] = none
check_identifiers ((kind, value) ∷ ids) =
    if kind == "" || value == "" then some (rejected "identifiers" empty) else check_identifiers ids

-- An optional enumerator: UNSPECIFIED passes.
abbrev if_set : String → Standing → Check
if_set what explicit = none
if_set what unset = none
if_set what unlisted = some (rejected what unknown_value)

unfoldable pub optional_value : {A : Type 0} ⦃e : Enumeration A⦄ → String → A → Check
optional_value what v = if_set what (standing v)

-- The first and the last sighting.
unfoldable pub check_sightings : Option Timestamp → Option Timestamp → Check
check_sightings none none = none
check_sightings none (some last) = some (rejected "last_seen" missing)
check_sightings (some first) none = none
check_sightings (some first) (some last) =
    if before_stamp last first then some (rejected "last_seen" invalid) else none

unfoldable pub validate_asset : Option Asset → Check
validate_asset none = some (rejected "Asset" is_nil)
validate_asset (some a) = do
  non_empty "id" a.id
  check_value "type" a.type
  non_empty "name" a.name
  check_identifiers a.identifiers
  optional_value "criticality" a.criticality
  optional_value "status" a.status
  check_sightings a.first_seen a.last_seen
