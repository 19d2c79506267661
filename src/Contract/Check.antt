-- ===== src/Contract/Check.antt =====
-- The checks that the validators are made of (contract/validate.go, response.go, detection.go).
-- A check is Go's `error`: `none` is nil. An error keeps the field and the reason, not the text.
use blueveil.Prelude.{
  Bool, true, false, String, Option, none, some, List, [], ◌∷◌, ◌==◌, if◌then◌else◌,
}
use blueveil.Prelude.Time.{Timestamp, check_valid}
use blueveil.Contract.Enums.{Standing, explicit, unset, unlisted, Enumeration, standing}

pub data Reason : Type 0 where
  is_nil empty no_ids empty_id unknown_value must_be_explicit missing invalid : Reason
  out_of_bounds not_a_digest : Reason

pub data ContractError : Type 0 where
  rejected : String → Reason → ContractError

abbrev pub Check : Type 0
Check = Option ContractError

-- `if err := a; err != nil { return err }` and then b.
infixl 5 ◌>>◌
abbrev pub ◌>>◌ : Check → Check → Check
none >> b = b
some e >> b = some e

-- One round of the loop over the named strings.
abbrev pub non_empty : String → String → Check
non_empty name value = if value == "" then some (rejected name empty) else none

-- checkOperationValue, checkRiskValue, checkResponseStatus, checkSeverityValue, and the same code
-- written out for the other enumerations.
abbrev pub of_standing : String → Standing → Check
of_standing what explicit = none
of_standing what unset = some (rejected what must_be_explicit)
of_standing what unlisted = some (rejected what unknown_value)

unfoldable pub check_value : {A : Type 0} ⦃e : Enumeration A⦄ → String → A → Check
check_value what v = of_standing what (standing v)

abbrev of_validity : String → Bool → Check
of_validity what true = none
of_validity what false = some (rejected what invalid)

unfoldable pub require_timestamp : String → Option Timestamp → Check
require_timestamp what none = some (rejected what missing)
require_timestamp what (some ts) = of_validity what (check_valid ts)

-- The loop that refuses an empty id.
unfoldable pub no_empty_id : String → List String → Check
no_empty_id what [] = none
no_empty_id what (id ∷ ids) =
    if id == "" then some (rejected what empty_id) else no_empty_id what ids

unfoldable pub require_ids : String → List String → Check
unfolding no_empty_id
require_ids what [] = some (rejected what no_ids)
require_ids what (id ∷ ids) = no_empty_id what (id ∷ ids)
