-- ===== src/Validation/Provider.antt =====
-- validation/provider.go: providers and the checks on what they are given and answer. A provider is its
-- information and a function; the context is left out.
use blueveil.Prelude.{not, String, Option, none, some, ◌==◌}
use blueveil.Prelude.Result.{Result, err, ensure, ensure_none, ◌>>◌}
use blueveil.Contract.Validation.{
  ValidationRequest, ValidationResult, validate_request, validate_result,
}
use blueveil.Validation.Error.{
  ValidationError, provider_output, registry, request_refused, nil_provider,
}

pub record ProviderInfo : Type 0 where
  pub id : String
  pub name : String
  pub version : String
  pub contract_version : String

pub record Provider : Type 0 where
  pub info : ProviderInfo
  pub validate : ValidationRequest → Result ValidationError (Option ValidationResult)

unfoldable pub check_request : Option ValidationRequest → Result ValidationError (Unit {0})
check_request req = ensure_none (λ _. request_refused) (validate_request req)

unfoldable pub check_result : Option ValidationResult → Result ValidationError (Unit {0})
check_result res = ensure_none (λ _. provider_output) (validate_result res)

unfoldable pub check_identity :
    ValidationRequest → ValidationResult → Result ValidationError (Unit {0})
check_identity req res = do
  ensure (res.request_id == req.id) provider_output
  ensure (res.control_id == req.control_id) provider_output

unfoldable pub check_provider : Option Provider → Result ValidationError (Unit {0})
check_provider none = err nil_provider
check_provider (some p) = ensure (not (p.info.id == "")) registry
