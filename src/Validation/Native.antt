-- ===== src/Validation/Native.antt =====
-- validation/native.go and redveil.go: the scripted provider, the one that always fails, and the adapter of
-- the absent runtime.
use Prim.Native.String.{◌++◌}
use blueveil.Prelude.{not, String, Option, none, some, [], ◌∷◌, ◌==◌}
use blueveil.Prelude.Text.{signed_decimal}
use blueveil.Prelude.Time.{Time, is_zero, timestamp}
use blueveil.Prelude.Dict.{Dict, empty, get, put}
use blueveil.Prelude.Library.{Library, derived_id}
use blueveil.Prelude.Result.{Result, ok, err, ensure, ensure_none, ◌>>◌}
use blueveil.Contract.Check.{check_value}
use blueveil.Contract.Validation.{
  ValidationVerdict, verdict_enumeration, ValidationRequest, ValidationResult, contract_version,
}
use blueveil.Validation.Error.{ValidationError, provider_failure, refused}
use blueveil.Validation.Provider.{ProviderInfo, check_request, check_result}

abbrev pub native_provider_id : String
native_provider_id = "blueveil/provider/native-test"

abbrev pub redveil_provider_id : String
redveil_provider_id = "blueveil/provider/redveil"

-- ValidationVerdict.String: the name, or the number of a value without one.
unfoldable pub verdict_name : ValidationVerdict → String
verdict_name ValidationVerdict.unspecified = "VALIDATION_VERDICT_UNSPECIFIED"
verdict_name ValidationVerdict.prevented = "VALIDATION_VERDICT_PREVENTED"
verdict_name ValidationVerdict.detected = "VALIDATION_VERDICT_DETECTED"
verdict_name ValidationVerdict.prevented_and_detected = "VALIDATION_VERDICT_PREVENTED_AND_DETECTED"
verdict_name ValidationVerdict.allowed_but_detected = "VALIDATION_VERDICT_ALLOWED_BUT_DETECTED"
verdict_name ValidationVerdict.allowed_and_not_detected =
    "VALIDATION_VERDICT_ALLOWED_AND_NOT_DETECTED"
verdict_name ValidationVerdict.rate_limited = "VALIDATION_VERDICT_RATE_LIMITED"
verdict_name ValidationVerdict.unknown = "VALIDATION_VERDICT_UNKNOWN"
verdict_name ValidationVerdict.not_tested = "VALIDATION_VERDICT_NOT_TESTED"
verdict_name (ValidationVerdict.out_of_range n) = signed_decimal n

-- The state of a scripted provider. The clock's reading is an argument of the call.
pub record ScriptedProvider : Type 0 where
  pub version : String
  pub default_verdict : ValidationVerdict
  pub scenario : Dict ValidationVerdict

unfoldable pub check_explicit_verdict : ValidationVerdict → Result ValidationError (Unit {0})
check_explicit_verdict v = ensure_none (λ _. refused) (check_value "verdict" v)

unfoldable pub new_scripted_provider :
    String → ValidationVerdict → Result ValidationError ScriptedProvider
new_scripted_provider version v = do
  check_explicit_verdict v
  ok (record { version = version; default_verdict = v; scenario = empty })

unfoldable pub set_verdict :
    ScriptedProvider → String → ValidationVerdict → Result ValidationError ScriptedProvider
set_verdict p control_id v = do
  check_explicit_verdict v
  ok (record p { scenario = put p.scenario control_id v })

unfoldable pub scripted_info : ScriptedProvider → ProviderInfo
scripted_info p = record {
  id = native_provider_id;
  name = "native-test";
  version = p.version;
  contract_version = contract_version;
}

abbrev verdict_or : ValidationVerdict → Option ValidationVerdict → ValidationVerdict
verdict_or v none = v
verdict_or v (some w) = w

unfoldable pub scripted_verdict : ScriptedProvider → String → ValidationVerdict
scripted_verdict p control_id = verdict_or p.default_verdict (get p.scenario control_id)

module _ (lib : Library) where
  -- The result that Validate fills in.
  unfoldable pub scripted_result : ScriptedProvider → ValidationRequest → Time → ValidationResult
  scripted_result p req now = record {
    id = derived_id lib "vres-" (
        "blueveil-validation-result-v1"
        ∷ req.id
        ∷ native_provider_id
        ∷ verdict_name (scripted_verdict p req.control_id)
        ∷ []);
    request_id = req.id;
    control_id = req.control_id;
    provider = native_provider_id;
    provider_version = p.version;
    contract_version = contract_version;
    verdict = scripted_verdict p req.control_id;
    validated_at = some (timestamp now);
    evidence_ids = [];
    note = "synthetic test verdict, not production security validation";
  }

  -- ScriptedProvider.Validate
  unfoldable pub scripted_validate :
      ScriptedProvider → ValidationRequest → Time → Result ValidationError ValidationResult
  scripted_validate p req now = do
    check_request (some req)
    ensure (not (is_zero now)) provider_failure
    let res = scripted_result p req now
    check_result (some res)
    ok res

-- ErrorProvider.Validate
unfoldable pub failing_validate : ValidationRequest → Result ValidationError ValidationResult
failing_validate req = check_request (some req) >> err provider_failure

pub record RedveilAdapter : Type 0 where
  pub version : String
  pub reason : String

unfoldable pub new_unavailable_adapter : String → String → Result ValidationError RedveilAdapter
new_unavailable_adapter version reason = do
  ensure (not (reason == "")) refused
  ok (record { version = version; reason = reason })

module _ (lib : Library) where
  unfoldable pub unavailable_result : RedveilAdapter → ValidationRequest → Time → ValidationResult
  unavailable_result a req now = record {
    id =
        derived_id lib "vres-"
          ("blueveil-validation-result-v1" ∷ req.id ∷ redveil_provider_id ∷ []);
    request_id = req.id;
    control_id = req.control_id;
    provider = redveil_provider_id;
    provider_version = a.version;
    contract_version = contract_version;
    verdict = ValidationVerdict.not_tested;
    validated_at = some (timestamp now);
    evidence_ids = [];
    note = "redveil runtime unavailable (" ++ (a.reason ++ "): NOT_TESTED, not a pass");
  }

  -- RedveilAdapter.Validate
  unfoldable pub redveil_validate :
      RedveilAdapter → ValidationRequest → Time → Result ValidationError ValidationResult
  redveil_validate a req now = do
    check_request (some req)
    ensure (not (is_zero now)) provider_failure
    let res = unavailable_result a req now
    check_result (some res)
    ok res
