-- ===== src/SupplyChain/Sbom.antt =====
-- supplychain/dependency.go: the records of bills of materials.
use blueveil.Prelude.{String, List, [], ◌∷◌, is_empty}
use blueveil.Prelude.Names.{sort}
use blueveil.Prelude.Time.{Time}
use blueveil.Prelude.Library.{Library, derived_id}
use blueveil.Contract.Check.{Check, ◌>>◌}
use blueveil.Contract.Fields.{required, no_blank, listed, observed, refuse_if}

abbrev pub sbom_formats : List String
sbom_formats = "SPDX" ∷ "CycloneDX" ∷ "UNKNOWN" ∷ []

pub record Sbom : Type 0 where
  pub format : String
  pub format_version : String
  pub component_ids : List String
  pub generated_at : Time
  pub source : String
  pub digest : String

unfoldable pub sbom_id : Library → Sbom → String
sbom_id lib s =
    derived_id lib "sbom-"
      ("blueveil-supply-sbom-v1" ∷ s.format ∷ s.format_version ∷ sort s.component_ids)

unfoldable pub validate_sbom : Sbom → Check
validate_sbom s = do
  listed "format" sbom_formats s.format
  refuse_if (is_empty s.component_ids) "component_ids"
  no_blank "component_ids" s.component_ids
  observed "generated_at" s.generated_at
  required "source" s.source
