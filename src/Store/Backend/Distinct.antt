-- ===== src/Store/Backend/Distinct.antt =====
-- Over any calls, what is to be unique stays unique.
use blueveil.Prelude.{arith, List, [], ◌∷◌}
use blueveil.Prelude.Library.{Library}
use blueveil.Asset.Canonical.{Net}
use blueveil.Store.Memory.Assets.Identity.{IsUnique, empty-IsUnique, create-IsUnique, save-IsUnique}
use blueveil.Store.Memory.Audits.Index.{IsIndexed, new_archive-IsIndexed, append-IsIndexed}
use blueveil.Store.Memory.Links.{
  dependency_key, accepts_dependency, append_dependency, relationship_key, accepts_relationship,
  append_relationship,
}
use blueveil.Store.Memory.Links.Distinct.{AreDistinct, append_link-AreDistinct}
use blueveil.Store.Backend.{Backend, Call, new_backend, step, run}

-- No two assets have one type and name; the archive's two copies agree, with no id twice; and no two links
-- have one key, and all links are valid.
pub record IsDistinct (b : Backend) : Type 0 where
  pub assets : IsUnique b.assets
  pub audit : IsIndexed b.audit
  pub dependencies : AreDistinct dependency_key accepts_dependency b.dependencies
  pub relationships : AreDistinct relationship_key accepts_relationship b.relationships

new_backend-IsDistinct : IsDistinct new_backend
unfolding new_backend
new_backend-IsDistinct = record {
  assets = empty-IsUnique;
  audit = new_archive-IsIndexed;
  dependencies = tt;
  relationships = tt;
}

module _ (lib : Library) (net : Net) where
  step-IsDistinct : (c : Call) (b : Backend) → IsDistinct b → IsDistinct (step lib net c b)
  unfolding step append_dependency append_relationship
  step-IsDistinct (Call.create_asset v) b h =
      ground (arith, create-IsUnique lib net b.assets v h.assets)
  step-IsDistinct (Call.save_asset v) b h =
      ground (arith, save-IsUnique lib net b.assets v h.assets)
  step-IsDistinct (Call.append_audit v) b h = ground (arith, append-IsIndexed b.audit v h.audit)
  step-IsDistinct (Call.append_dependency v) b h = record {
    assets = h.assets;
    audit = h.audit;
    dependencies =
        append_link-AreDistinct dependency_key accepts_dependency b.dependencies v h.dependencies;
    relationships = h.relationships;
  }
  step-IsDistinct (Call.append_relationship v) b h = record {
    assets = h.assets;
    audit = h.audit;
    dependencies = h.dependencies;
    relationships =
        append_link-AreDistinct relationship_key accepts_relationship b.relationships v
          h.relationships;
  }
  step-IsDistinct (Call.append_telemetry v) b h = ground arith
  step-IsDistinct (Call.append_detection v) b h = ground arith
  step-IsDistinct (Call.append_alert v) b h = ground arith
  step-IsDistinct (Call.create_incident v) b h = ground arith
  step-IsDistinct (Call.save_incident v) b h = ground arith
  step-IsDistinct (Call.append_evidence v) b h = ground arith
  step-IsDistinct (Call.create_recommendation v) b h = ground arith
  step-IsDistinct (Call.save_recommendation v) b h = ground arith
  step-IsDistinct (Call.append_approval v) b h = ground arith
  step-IsDistinct (Call.append_execution v) b h = ground arith
  step-IsDistinct (Call.append_verification v) b h = ground arith
  step-IsDistinct (Call.append_request v) b h = ground arith
  step-IsDistinct (Call.append_result v) b h = ground arith
  step-IsDistinct (Call.create_campaign v) b h = ground arith
  step-IsDistinct (Call.save_campaign v) b h = ground arith
  step-IsDistinct (Call.create_exercise v) b h = ground arith
  step-IsDistinct (Call.create_assessment v) b h = ground arith
  step-IsDistinct (Call.create_posture v) b h = ground arith
  step-IsDistinct (Call.create_component v) b h = ground arith
  step-IsDistinct (Call.create_sbom v) b h = ground arith
  step-IsDistinct (Call.create_policy v) b h = ground arith
  step-IsDistinct (Call.create_vendor v) b h = ground arith
  step-IsDistinct (Call.create_vendor_assessment v) b h = ground arith
  step-IsDistinct (Call.create_supply_link v) b h = ground arith

  run_from-IsDistinct :
      (calls : List Call) (b : Backend) → IsDistinct b → IsDistinct (run lib net calls b)
  unfolding run
  run_from-IsDistinct [] b h = h
  run_from-IsDistinct (c ∷ calls) b h =
      run_from-IsDistinct calls (step lib net c b) (step-IsDistinct c b h)

  -- After any calls on a new backend, no two assets have one type and name; the list and the map of the
  -- audit archive hold the same entries, no two with one id; and in the repositories of dependencies
  -- and of relationships every link is valid, and no two have the same ends and kind.
  pub run-IsDistinct : (calls : List Call) → IsDistinct (run lib net calls new_backend)
  run-IsDistinct calls = run_from-IsDistinct calls new_backend new_backend-IsDistinct
