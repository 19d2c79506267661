-- ===== src/SupplyChain/Component.antt =====
-- supplychain/model.go: components.
use blueveil.Prelude.{◌&&◌, String, List, [], ◌∷◌}
use blueveil.Prelude.Names.{contains}
use blueveil.Prelude.Space.{is_blank, trim_space}
use blueveil.Prelude.Time.{Time}
use blueveil.Prelude.Library.{Library, derived_id, to_lower}
use blueveil.Contract.Check.{Check, ◌>>◌}
use blueveil.Contract.Fields.{required, listed, observed, refuse_if}

abbrev pub component_types : List String
component_types =
    "PACKAGE" ∷ "LIBRARY" ∷ "FRAMEWORK" ∷ "CONTAINER_IMAGE" ∷ "BINARY" ∷ "SOURCE_REPOSITORY"
    ∷ "BUILD_ARTIFACT" ∷ "INFRASTRUCTURE_MODULE" ∷ "UNKNOWN" ∷ []

abbrev pub provenances : List String
provenances =
    "MANIFEST" ∷ "LOCKFILE" ∷ "BUILD_METADATA" ∷ "CONTAINER_METADATA" ∷ "SOURCE_REPOSITORY"
    ∷ "DEPLOYMENT_OBSERVATION" ∷ "OPERATOR_DECLARATION" ∷ "SBOM_IMPORT" ∷ []

-- The statuses that need a basis, and all of them.
abbrev pub based_statuses : List String
based_statuses = "VERIFIED" ∷ "OUTDATED" ∷ "UNSUPPORTED" ∷ "POLICY_VIOLATION" ∷ []

abbrev pub component_statuses : List String
component_statuses =
    "OBSERVED" ∷ "NOT_ASSESSED" ∷ "UNKNOWN" ∷ "VERIFIED" ∷ "OUTDATED" ∷ "UNSUPPORTED"
    ∷ "POLICY_VIOLATION" ∷ []

pub record Component : Type 0 where
  pub type : String
  pub ecosystem : String
  pub namespace : String
  pub name : String
  pub version : String
  pub requested_version : String
  pub resolved_version : String
  pub digest : String
  pub source_revision : String
  pub license : String
  pub license_source : String
  pub provenance : String
  pub source : String
  pub observed_at : Time
  pub status : String
  pub status_basis : String

unfoldable pub component_id : Library → Component → String
component_id lib c = derived_id lib "comp-" (
    "blueveil-supply-component-v1"
    ∷ to_lower lib (trim_space c.ecosystem)
    ∷ c.namespace
    ∷ c.name
    ∷ c.version
    ∷ c.digest
    ∷ [])

unfoldable pub validate_component : Component → Check
validate_component c = do
  listed "type" component_types c.type
  required "ecosystem" c.ecosystem
  required "name" c.name
  listed "provenance" provenances c.provenance
  required "source" c.source
  observed "observed_at" c.observed_at
  refuse_if (contains based_statuses c.status && is_blank c.status_basis) "status_basis"
  listed "status" component_statuses c.status
