-- ===== src/Store/Memory/Vendors.antt =====
-- memoryVendor of store/memory.go.
use blueveil.Prelude.{String, List, some}
use blueveil.Prelude.Dict.{Dict, listing}
use blueveil.Prelude.Result.{Result}
use blueveil.Prelude.Library.{Library}
use blueveil.SupplyChain.Vendor.{Vendor, validate_vendor, vendor_id}
use blueveil.Store.Table.{Kind, StoreError, passes, create as create_row, lookup}

module _ (lib : Library) where
  abbrev pub kind : Kind Vendor
  kind = record { key = λ e. vendor_id lib e; accepts = λ e. passes (validate_vendor e) }

  -- Create
  unfoldable pub create : Dict Vendor → Vendor → Result StoreError (Dict Vendor)
  create r e = create_row kind r (some e)

-- Get
unfoldable pub get : Dict Vendor → String → Result StoreError Vendor
get r id = lookup r id

-- List
unfoldable pub list : Dict Vendor → List Vendor
list r = listing r
