-- ===== src/Store/Memory/Requests.antt =====
-- memoryValidation of store/memory.go, the requests.
use blueveil.Prelude.{String, Option, some}
use blueveil.Prelude.Dict.{Dict}
use blueveil.Prelude.Result.{Result}
use blueveil.Contract.Validation.{ValidationRequest, validate_request}
use blueveil.Store.Table.{Kind, StoreError, passes, create as create_row, lookup}

abbrev pub kind : Kind ValidationRequest
kind = record { key = λ e. e.id; accepts = λ e. passes (validate_request (some e)) }

-- Append
unfoldable pub append :
    Dict ValidationRequest → Option ValidationRequest → Result StoreError (Dict ValidationRequest)
append r e = create_row kind r e

-- Get
unfoldable pub get : Dict ValidationRequest → String → Result StoreError ValidationRequest
get r id = lookup r id
