-- ===== src/Store/Memory/Components.antt =====
-- memoryComponent of store/memory.go.
use blueveil.Prelude.{String, List, some}
use blueveil.Prelude.Dict.{Dict, listing}
use blueveil.Prelude.Result.{Result}
use blueveil.Prelude.Library.{Library}
use blueveil.SupplyChain.Component.{Component, validate_component, component_id}
use blueveil.Store.Table.{Kind, StoreError, passes, create as create_row, lookup}

module _ (lib : Library) where
  abbrev pub kind : Kind Component
  kind = record { key = λ e. component_id lib e; accepts = λ e. passes (validate_component e) }

  -- Create
  unfoldable pub create : Dict Component → Component → Result StoreError (Dict Component)
  create r e = create_row kind r (some e)

-- Get
unfoldable pub get : Dict Component → String → Result StoreError Component
get r id = lookup r id

-- List
unfoldable pub list : Dict Component → List Component
list r = listing r
