-- ===== src/Store/Memory/Results.antt =====
-- memoryValidation of store/memory.go, the results.
use blueveil.Prelude.{String, Option, List, some}
use blueveil.Prelude.Dict.{Dict, listing}
use blueveil.Prelude.Result.{Result}
use blueveil.Contract.Validation.{ValidationResult, validate_result}
use blueveil.Store.Table.{Kind, StoreError, passes, create as create_row, lookup}

abbrev pub kind : Kind ValidationResult
kind = record { key = λ e. e.id; accepts = λ e. passes (validate_result (some e)) }

-- Append
unfoldable pub append :
    Dict ValidationResult → Option ValidationResult → Result StoreError (Dict ValidationResult)
append r e = create_row kind r e

-- Get
unfoldable pub get : Dict ValidationResult → String → Result StoreError ValidationResult
get r id = lookup r id

-- List
unfoldable pub list : Dict ValidationResult → List ValidationResult
list r = listing r
