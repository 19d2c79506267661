-- ===== src/Store/Memory/VendorAssessments.antt =====
-- memoryVendorAssessment of store/memory.go.
use blueveil.Prelude.{String, List, some}
use blueveil.Prelude.Dict.{Dict, listing}
use blueveil.Prelude.Result.{Result}
use blueveil.Prelude.Library.{Library}
use blueveil.SupplyChain.Vendor.{VendorAssessment, validate_vendor_assessment, vendor_assessment_id}
use blueveil.Store.Table.{Kind, StoreError, passes, create as create_row, lookup}

module _ (lib : Library) where
  abbrev pub kind : Kind VendorAssessment
  kind = record {
    key = λ e. vendor_assessment_id lib e;
    accepts = λ e. passes (validate_vendor_assessment e);
  }

  -- Create
  unfoldable pub create :
      Dict VendorAssessment → VendorAssessment → Result StoreError (Dict VendorAssessment)
  create r e = create_row kind r (some e)

-- Get
unfoldable pub get : Dict VendorAssessment → String → Result StoreError VendorAssessment
get r id = lookup r id

-- List
unfoldable pub list : Dict VendorAssessment → List VendorAssessment
list r = listing r
