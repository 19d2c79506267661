-- ===== src/Store/Memory/Approvals.antt =====
-- memoryResponseRecords of store/memory.go, the approvals.
use blueveil.Prelude.{String, Option, List, some}
use blueveil.Prelude.Dict.{Dict, listing}
use blueveil.Prelude.Result.{Result}
use blueveil.Contract.Messages.{ResponseApproval}
use blueveil.Contract.Response.{validate_approval}
use blueveil.Store.Table.{Kind, StoreError, passes, create as create_row, lookup}

abbrev pub kind : Kind ResponseApproval
kind = record { key = λ e. e.id; accepts = λ e. passes (validate_approval (some e)) }

-- Append
unfoldable pub append :
    Dict ResponseApproval → Option ResponseApproval → Result StoreError (Dict ResponseApproval)
append r e = create_row kind r e

-- Get
unfoldable pub get : Dict ResponseApproval → String → Result StoreError ResponseApproval
get r id = lookup r id

-- List
unfoldable pub list : Dict ResponseApproval → List ResponseApproval
list r = listing r
