-- ===== src/Store/Memory/Executions.antt =====
-- memoryResponseRecords of store/memory.go, the executions.
use blueveil.Prelude.{String, Option, List, some}
use blueveil.Prelude.Dict.{Dict, listing}
use blueveil.Prelude.Result.{Result}
use blueveil.Contract.Messages.{ResponseExecution}
use blueveil.Contract.Response.{validate_execution}
use blueveil.Store.Table.{Kind, StoreError, passes, create as create_row, lookup}

abbrev pub kind : Kind ResponseExecution
kind = record { key = λ e. e.id; accepts = λ e. passes (validate_execution (some e)) }

-- Append
unfoldable pub append :
    Dict ResponseExecution → Option ResponseExecution → Result StoreError (Dict ResponseExecution)
append r e = create_row kind r e

-- Get
unfoldable pub get : Dict ResponseExecution → String → Result StoreError ResponseExecution
get r id = lookup r id

-- List
unfoldable pub list : Dict ResponseExecution → List ResponseExecution
list r = listing r
