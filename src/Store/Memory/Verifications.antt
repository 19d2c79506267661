-- ===== src/Store/Memory/Verifications.antt =====
-- memoryResponseRecords of store/memory.go, the verifications.
use blueveil.Prelude.{String, Option, List, some}
use blueveil.Prelude.Dict.{Dict, listing}
use blueveil.Prelude.Result.{Result}
use blueveil.Contract.Messages.{ResponseVerification}
use blueveil.Contract.Response.{validate_verification}
use blueveil.Store.Table.{Kind, StoreError, passes, create as create_row, lookup}

abbrev pub kind : Kind ResponseVerification
kind = record { key = λ e. e.id; accepts = λ e. passes (validate_verification (some e)) }

-- Append
unfoldable pub append :
    Dict ResponseVerification
    → Option ResponseVerification
    → Result StoreError (Dict ResponseVerification)
append r e = create_row kind r e

-- Get
unfoldable pub get : Dict ResponseVerification → String → Result StoreError ResponseVerification
get r id = lookup r id

-- List
unfoldable pub list : Dict ResponseVerification → List ResponseVerification
list r = listing r
