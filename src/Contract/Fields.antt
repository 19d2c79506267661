-- ===== src/Contract/Fields.antt =====
-- The tests that the Validate methods of packages grc, supplychain, validation and store are made of. They
-- trim a text before they test it, which contract's own validators do not.
use blueveil.Prelude.{Bool, true, false, String, none, some, List, [], ◌∷◌, if◌then◌else◌}
use blueveil.Prelude.Names.{contains}
use blueveil.Prelude.Space.{is_blank}
use blueveil.Prelude.Time.{Time, is_zero}
use blueveil.Contract.Check.{Check, rejected, empty, unknown_value, missing}

-- `if strings.TrimSpace(value) == "" { return ... }`
unfoldable pub required : String → String → Check
required what value = if is_blank value then some (rejected what empty) else none

-- The loop that refuses a blank text.
unfoldable pub no_blank : String → List String → Check
no_blank what [] = none
no_blank what (s ∷ ss) = if is_blank s then some (rejected what empty) else no_blank what ss

-- `switch value { case ...: default: return ... }`, for a type of texts with a bounded vocabulary.
unfoldable pub listed : String → List String → String → Check
listed what vocabulary value =
    if contains vocabulary value then none else some (rejected what unknown_value)

-- `if t.IsZero() { return ... }`
unfoldable pub observed : String → Time → Check
observed what t = if is_zero t then some (rejected what missing) else none

-- `if test { return ... }`
unfoldable pub refuse_if : Bool → String → Check
refuse_if true what = some (rejected what missing)
refuse_if false what = none
