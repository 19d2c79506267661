-- ===== src/Store/Memory/SupplyLinks.antt =====
-- memorySupplyLink of store/memory.go.
use blueveil.Prelude.{List, some}
use blueveil.Prelude.Dict.{Dict, listing}
use blueveil.Prelude.Result.{Result}
use blueveil.Prelude.Library.{Library}
use blueveil.SupplyChain.Link.{SupplyLink, validate_link, link_id}
use blueveil.Store.Table.{Kind, StoreError, passes, create as create_row}

module _ (lib : Library) where
  abbrev pub kind : Kind SupplyLink
  kind = record { key = λ e. link_id lib e; accepts = λ e. passes (validate_link e) }

  -- Create
  unfoldable pub create : Dict SupplyLink → SupplyLink → Result StoreError (Dict SupplyLink)
  create r e = create_row kind r (some e)

-- List
unfoldable pub list : Dict SupplyLink → List SupplyLink
list r = listing r
