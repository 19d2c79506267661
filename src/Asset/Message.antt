-- ===== src/Asset/Message.antt =====
-- The asset message of contract/v1/asset.pb.go.
use native.Mathlib.Decide.{ℕ_discrete}
use blueveil.Prelude.{String, Option, List}
use blueveil.Prelude.Int.{ℤ}
use blueveil.Prelude.Time.{Timestamp}
use blueveil.Prelude.Dict.{Dict}
use blueveil.Contract.Enums.{Severity}
use blueveil.Contract.Equality.{ℤ-discrete}

pub data AssetType : Type 0 where
  unspecified host container service network cloud_resource user_device other : AssetType
  domain ip_address url application : AssetType
  out_of_range : ℤ → AssetType

pub data AssetStatus : Type 0 where
  unspecified discovered active stale retired : AssetStatus
  out_of_range : ℤ → AssetStatus

unfoldable pub AssetStatus-discrete : Discrete AssetStatus
unfolding ℤ-discrete ℕ_discrete
AssetStatus-discrete = hlevel ℕ_discrete

pub record Asset : Type 0 where
  pub id : String
  pub type : AssetType
  pub name : String
  pub identifiers : List (String × String)
  pub criticality : Severity
  pub environment : String
  pub status : AssetStatus
  pub first_seen : Option Timestamp
  pub last_seen : Option Timestamp
  pub attributes : Dict String
