-- ===== src/Store/Memory/Policies.antt =====
-- memoryPolicy of store/memory.go.
use blueveil.Prelude.{String, List, some}
use blueveil.Prelude.Dict.{Dict, listing}
use blueveil.Prelude.Result.{Result}
use blueveil.SupplyChain.Policy.{SupplyPolicy, validate_policy}
use blueveil.Store.Table.{Kind, StoreError, passes, create as create_row, lookup}

abbrev pub kind : Kind SupplyPolicy
kind = record { key = λ e. e.id; accepts = λ e. passes (validate_policy e) }

-- Create
unfoldable pub create : Dict SupplyPolicy → SupplyPolicy → Result StoreError (Dict SupplyPolicy)
create r e = create_row kind r (some e)

-- Get
unfoldable pub get : Dict SupplyPolicy → String → Result StoreError SupplyPolicy
get r id = lookup r id

-- List
unfoldable pub list : Dict SupplyPolicy → List SupplyPolicy
list r = listing r
