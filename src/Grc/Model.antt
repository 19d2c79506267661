-- ===== src/Grc/Model.antt =====
-- grc/model.go and the mappings of grc/catalog.go. A type of texts with a bounded vocabulary is
-- String, as in Go, with its constants.
use blueveil.Prelude.{Bool, ◌&&◌, not, String, List, [], ◌∷◌, ◌==◌}
use blueveil.Prelude.Names.{contains}
use blueveil.Prelude.Space.{is_blank}
use blueveil.Prelude.Time.{Time}
use blueveil.Prelude.Dict.{Dict, filter_keys}
use blueveil.Prelude.Library.{Library, derived_id}
use blueveil.Contract.Check.{Check, ◌>>◌, non_empty}
use blueveil.Contract.Fields.{required, listed, observed, refuse_if}
use blueveil.Contract.Sensitive.{sensitive_field}

abbrev pub domains : List String
domains =
    "network" ∷ "application" ∷ "endpoint" ∷ "server" ∷ "container" ∷ "cloud" ∷ "identity" ∷ "auth"
    ∷ "data" ∷ "waf" ∷ "governance" ∷ "resilience" ∷ "architecture" ∷ []

-- validDomain
unfoldable pub valid_domain : String → Bool
valid_domain d = contains domains d

pub record Requirement : Type 0 where
  pub framework : String
  pub framework_version : String
  pub control_ref : String
  pub title : String
  pub description : String
  pub domain : String

unfoldable pub requirement_id : Library → Requirement → String
requirement_id lib r =
    derived_id lib "greq-"
      ("blueveil-grc-requirement-v1" ∷ r.framework ∷ r.framework_version ∷ r.control_ref ∷ [])

unfoldable pub validate_requirement : Requirement → Check
validate_requirement r = do
  required "framework" r.framework
  required "control_ref" r.control_ref
  required "title" r.title
  refuse_if (not (valid_domain r.domain)) "domain"

abbrev pub implementation_statuses : List String
implementation_statuses = "IMPLEMENTED" ∷ "PARTIAL" ∷ "NOT_IMPLEMENTED" ∷ "UNKNOWN" ∷ "" ∷ []

pub record Control : Type 0 where
  pub id : String
  pub title : String
  pub description : String
  pub domain : String
  pub framework : String
  pub framework_version : String
  pub implementation : String

unfoldable pub validate_control : Control → Check
validate_control c = do
  required "id" c.id
  required "title" c.title
  refuse_if (not (valid_domain c.domain)) "domain"
  required "framework" c.framework
  listed "implementation" implementation_statuses c.implementation

-- The statuses that need a basis, and the others.
abbrev pub decisive_statuses : List String
decisive_statuses = "COMPLIANT" ∷ "PARTIALLY_COMPLIANT" ∷ "NON_COMPLIANT" ∷ []

abbrev pub assessment_statuses : List String
assessment_statuses =
    "COMPLIANT" ∷ "PARTIALLY_COMPLIANT" ∷ "NON_COMPLIANT" ∷ "NOT_ASSESSED" ∷ "NOT_APPLICABLE"
    ∷ "UNKNOWN" ∷ []

abbrev pub risk_levels : List String
risk_levels = "" ∷ "LOW" ∷ "MEDIUM" ∷ "HIGH" ∷ "CRITICAL" ∷ "UNKNOWN" ∷ []

pub record Assessment : Type 0 where
  pub control_id : String
  pub target : String
  pub status : String
  pub assessor : String
  pub observed_at : Time
  pub evidence_ids : List String
  pub validation_ids : List String
  pub basis : String
  pub notes : String
  pub risk : String
  pub risk_basis : String

unfoldable pub assessment_id : Library → Assessment → String
assessment_id lib a = derived_id lib "gass-" (
    "blueveil-grc-assessment-v1"
    ∷ a.control_id
    ∷ a.target
    ∷ a.status
    ∷ a.assessor
    ∷ lib.rfc3339 a.observed_at
    ∷ [])

unfoldable pub validate_assessment : Assessment → Check
validate_assessment a = do
  required "control_id" a.control_id
  required "target" a.target
  listed "status" assessment_statuses a.status
  required "assessor" a.assessor
  observed "observed_at" a.observed_at
  refuse_if (contains decisive_statuses a.status && is_blank a.basis) "basis"
  listed "risk" risk_levels a.risk
  refuse_if (not (a.risk == "") && not (a.risk == "UNKNOWN") && is_blank a.risk_basis) "risk_basis"

-- RedactMetadata
unfoldable pub redact_metadata : Library → Dict String → Dict String
redact_metadata lib meta = filter_keys (λ k. not (sensitive_field lib k)) meta

abbrev pub source_types : List String
source_types =
    "asset" ∷ "telemetry" ∷ "detection" ∷ "alert" ∷ "incident" ∷ "evidence" ∷ "validation-result"
    ∷ "response-audit" ∷ []

pub record ControlMapping : Type 0 where
  pub control_id : String
  pub source_type : String
  pub source_id : String
  pub note : String

unfoldable pub validate_mapping : ControlMapping → Check
validate_mapping m = do
  non_empty "control_id" m.control_id
  listed "source_type" source_types m.source_type
  non_empty "source_id" m.source_id
