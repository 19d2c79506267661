-- ===== src/SupplyChain/Vendor.antt =====
-- supplychain/vendor.go: vendors and their assessments.
use blueveil.Prelude.{◌+◌, Bool, not, String, List, [], ◌∷◌}
use blueveil.Prelude.Int.{ℤ, pos_part, neg_part}
use blueveil.Prelude.Time.{Time, before}
use blueveil.Prelude.Library.{Library, derived_id}
use blueveil.Contract.Check.{Check, ◌>>◌}
use blueveil.Contract.Fields.{required, listed, observed}

abbrev pub vendor_statuses : List String
vendor_statuses = "ACTIVE" ∷ "INACTIVE" ∷ "UNKNOWN" ∷ "NOT_ASSESSED" ∷ []

pub record Vendor : Type 0 where
  pub name : String
  pub service : String
  pub category : String
  pub environment : String
  pub status : String
  pub source : String
  pub observed_at : Time

unfoldable pub vendor_id : Library → Vendor → String
vendor_id lib v = derived_id lib "vend-" ("blueveil-supply-vendor-v1" ∷ v.name ∷ v.service ∷ [])

unfoldable pub validate_vendor : Vendor → Check
validate_vendor v = do
  required "name" v.name
  required "service" v.service
  listed "status" vendor_statuses v.status
  required "source" v.source
  observed "observed_at" v.observed_at

abbrev pub vendor_assessment_statuses : List String
vendor_assessment_statuses = "REVIEWED" ∷ "REQUIREMENT_DECLARED" ∷ "NOT_ASSESSED" ∷ "UNKNOWN" ∷ []

pub record VendorAssessment : Type 0 where
  pub vendor_id : String
  pub status : String
  pub assessor : String
  pub observed_at : Time
  pub evidence_ids : List String
  pub note : String

unfoldable pub vendor_assessment_id : Library → VendorAssessment → String
vendor_assessment_id lib a = derived_id lib "vass-" (
    "blueveil-supply-vendor-assessment-v1"
    ∷ a.vendor_id
    ∷ a.status
    ∷ lib.rfc3339 a.observed_at
    ∷ [])

unfoldable pub validate_vendor_assessment : VendorAssessment → Check
validate_vendor_assessment a = do
  required "vendor_id" a.vendor_id
  listed "status" vendor_assessment_statuses a.status
  required "assessor" a.assessor
  observed "observed_at" a.observed_at

-- IsAssessmentStale: not after now - window. The window is a number of nanoseconds, of either sign;
-- both sides are moved by it, so that a window that reaches behind the year 1 counts in full.
unfoldable pub is_assessment_stale : Time → ℤ → Time → Bool
is_assessment_stale assessed_at window now =
    not (before (now + neg_part window) (assessed_at + pos_part window))
