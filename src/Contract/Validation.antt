-- ===== src/Contract/Validation.antt =====
-- contract/validation.go: validation requests and results, with their messages of
-- contract/v1/validation.pb.go.
use blueveil.Prelude.{not, String, Option, none, some, List, ◌==◌, if◌then◌else◌}
use blueveil.Prelude.Int.{ℤ}
use blueveil.Prelude.Time.{Timestamp}
use blueveil.Prelude.Dict.{Dict}
use blueveil.Contract.Enums.{Standing, explicit, unset, unlisted, Enumeration}
use blueveil.Contract.Check.{
  Check, ◌>>◌, rejected, is_nil, unknown_value, non_empty, check_value, require_timestamp,
  no_empty_id,
}

pub data ValidationVerdict : Type 0 where
  unspecified prevented detected prevented_and_detected : ValidationVerdict
  allowed_but_detected allowed_and_not_detected : ValidationVerdict
  rate_limited unknown not_tested : ValidationVerdict
  out_of_range : ℤ → ValidationVerdict

abbrev verdict_standing : ValidationVerdict → Standing
verdict_standing ValidationVerdict.unspecified = unset
verdict_standing (ValidationVerdict.out_of_range _) = unlisted
verdict_standing _ = explicit

instance abbrev pub verdict_enumeration : Enumeration ValidationVerdict
verdict_enumeration = record { standing_of = verdict_standing }

pub record ValidationRequest : Type 0 where
  pub id : String
  pub control_id : String
  pub target : String
  pub context : Dict String
  pub requested_at : Option Timestamp

pub record ValidationResult : Type 0 where
  pub id : String
  pub request_id : String
  pub control_id : String
  pub provider : String
  pub provider_version : String
  pub contract_version : String
  pub verdict : ValidationVerdict
  pub validated_at : Option Timestamp
  pub evidence_ids : List String
  pub note : String

-- ContractVersion
abbrev pub contract_version : String
contract_version = "blueveil.contracts.v1"

unfoldable pub validate_request : Option ValidationRequest → Check
validate_request none = some (rejected "ValidationRequest" is_nil)
validate_request (some r) = do
  non_empty "id" r.id
  non_empty "control_id" r.control_id
  non_empty "target" r.target
  require_timestamp "requested_at" r.requested_at

unfoldable pub validate_result : Option ValidationResult → Check
validate_result none = some (rejected "ValidationResult" is_nil)
validate_result (some r) = do
  non_empty "id" r.id
  non_empty "request_id" r.request_id
  non_empty "control_id" r.control_id
  non_empty "provider" r.provider
  if not (r.contract_version == contract_version)
      then some (rejected "contract_version" unknown_value)
      else none
  check_value "verdict" r.verdict
  require_timestamp "validated_at" r.validated_at
  no_empty_id "evidence_ids" r.evidence_ids
