-- ===== src/Asset/Discovery.antt =====
-- asset/discovery.go: relationships, the check of a canonical name, and Normalize. Decompose is left out.
use blueveil.Prelude.{Bool, true, false, ◌||◌, not, String, Option, none, some, List, [], ◌∷◌, ◌==◌}
use blueveil.Prelude.Space.{is_blank, trim_space}
use blueveil.Prelude.Time.{Time, is_zero, timestamp}
use blueveil.Prelude.Dict.{Dict}
use blueveil.Prelude.Library.{Library}
use blueveil.Prelude.Result.{Result, ok, err, ensure, ensure_none, ◌>>=◌, ◌>>◌ as ◌>>ᵣ◌}
use blueveil.Contract.Enums.{Severity}
use blueveil.Contract.Check.{Check, ◌>>◌, check_value, non_empty}
use blueveil.Contract.Fields.{listed, observed, refuse_if}
use blueveil.Contract.Asset.{type_enumeration, validate_asset}
use blueveil.Asset.Message.{AssetType, AssetStatus, Asset}
use blueveil.Asset.Canonical.{Net, canonicalize, asset_id, identifier_kind}

pub data AssetError : Type 0 where
  canonicalization discovery invalid_asset : AssetError

pub record Observation : Type 0 where
  pub source : String
  pub type : AssetType
  pub raw : String
  pub observed_at : Time
  pub environment : String
  pub attributes : Dict String

abbrev pub relationship_kinds : List String
relationship_kinds =
    "CONTAINS" ∷ "COMMUNICATES_WITH" ∷ "EXPOSES" ∷ "SERVED_BY" ∷ "RUNS" ∷ "HOSTED_ON" ∷ "PART_OF"
    ∷ "BELONGS_TO" ∷ "ACCESSES" ∷ "MEMBER_OF" ∷ "ASSUMES" ∷ "AUTHENTICATES_TO" ∷ []

pub record Relationship : Type 0 where
  pub parent_id : String
  pub child_id : String
  pub kind : String
  pub source : String
  pub observed_at : Time

unfoldable pub validate_relationship : Relationship → Check
validate_relationship r = do
  refuse_if (r.parent_id == "" || r.child_id == "") "parent_id"
  refuse_if (r.parent_id == r.child_id) "child_id"
  listed "kind" relationship_kinds r.kind
  non_empty "source" r.source
  observed "observed_at" r.observed_at

abbrev is_text : String → Option String → Bool
is_text s none = false
is_text s (some t) = t == s

-- The types whose names must be canonical.
unfoldable pub is_strict : AssetType → Bool
is_strict AssetType.domain = true
is_strict AssetType.ip_address = true
is_strict AssetType.url = true
is_strict AssetType.host = true
is_strict AssetType.service = true
is_strict _ = false

module _ (lib : Library) (net : Net) where
  -- CheckCanonical(a) == nil
  unfoldable pub is_canonical : Asset → Bool
  is_canonical a = not (is_strict a.type) || is_text a.name (canonicalize lib net a.type a.name)

  -- The asset that Normalize fills in.
  unfoldable pub discovered : Observation → String → Asset
  discovered obs canonical = record {
    id = asset_id lib obs.type canonical;
    type = obs.type;
    name = canonical;
    identifiers = (identifier_kind obs.type, canonical) ∷ [];
    criticality = Severity.unspecified;
    environment = trim_space obs.environment;
    status = AssetStatus.discovered;
    first_seen = some (timestamp obs.observed_at);
    last_seen = some (timestamp obs.observed_at);
    attributes = obs.attributes;
  }

  abbrev or_bad : Option String → Result AssetError String
  or_bad none = err canonicalization
  or_bad (some s) = ok s

  unfoldable pub normalize : Observation → Result AssetError Asset
  normalize obs =
      ensure (not (is_blank obs.source)) discovery
      >>ᵣ (ensure_none (λ _. discovery) (check_value "type" obs.type)
          >>ᵣ (or_bad (canonicalize lib net obs.type obs.raw) >>= λ canonical.
              ensure (not (is_zero obs.observed_at)) discovery
              >>ᵣ (ensure_none (λ _. invalid_asset)
                    (validate_asset (some (discovered obs canonical)))
                  >>ᵣ ok (discovered obs canonical))))
