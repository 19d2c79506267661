-- ===== src/Store/Backend/Retained.antt =====
-- Over any calls, what an append-only repository holds stays as it is, and what the others hold stays
-- under its id.
use blueveil.Prelude.{arith, some, List, [], ◌∷◌}
use blueveil.Prelude.Library.{Library}
use blueveil.Asset.Canonical.{Net}
use blueveil.Store.Memory.Telemetry
use blueveil.Store.Memory.Detections
use blueveil.Store.Memory.Alerts
use blueveil.Store.Memory.Incidents
use blueveil.Store.Memory.EvidenceItems
use blueveil.Store.Memory.Recommendations
use blueveil.Store.Memory.Approvals
use blueveil.Store.Memory.Executions
use blueveil.Store.Memory.Verifications
use blueveil.Store.Memory.Requests
use blueveil.Store.Memory.Results
use blueveil.Store.Memory.Campaigns
use blueveil.Store.Memory.Exercises
use blueveil.Store.Memory.Assessments
use blueveil.Store.Memory.Postures
use blueveil.Store.Memory.Components
use blueveil.Store.Memory.Sboms
use blueveil.Store.Memory.Policies
use blueveil.Store.Memory.Vendors
use blueveil.Store.Memory.VendorAssessments
use blueveil.Store.Memory.SupplyLinks
use blueveil.Store.Memory.Assets.Identity.{create_asset-Persists, save_asset-Persists}
use blueveil.Store.Memory.Links
use blueveil.Store.Memory.Links.{
  dependency_key, accepts_dependency, relationship_key, accepts_relationship,
}
use blueveil.Store.Memory.Links.Kept.{Grows, Grows-refl, Grows-trans, append_link-Grows}
use blueveil.Store.Memory.Audits.Order.{IsPrefix, IsPrefix-refl, IsPrefix-trans, append-IsPrefix}
use blueveil.Store.Table.Sound.{
  Extends, Extends-refl, Extends-trans, create-Extends, Persists, Persists-refl, Persists-trans,
  create-Persists, save-Persists,
}
use blueveil.Store.Backend.{Backend, Call, step, run}

-- What never goes from b to b': append-only records are unchanged, the others keep their ids.
pub record Retains (b b' : Backend) : Type 0 where
  pub telemetry : Extends b.telemetry b'.telemetry
  pub detections : Extends b.detections b'.detections
  pub alerts : Extends b.alerts b'.alerts
  pub incidents : Persists b.incidents b'.incidents
  pub evidence : Extends b.evidence b'.evidence
  pub recommendations : Persists b.recommendations b'.recommendations
  pub approvals : Extends b.approvals b'.approvals
  pub executions : Extends b.executions b'.executions
  pub verifications : Extends b.verifications b'.verifications
  pub requests : Extends b.requests b'.requests
  pub results : Extends b.results b'.results
  pub campaigns : Persists b.campaigns b'.campaigns
  pub exercises : Extends b.exercises b'.exercises
  pub assessments : Extends b.assessments b'.assessments
  pub postures : Extends b.postures b'.postures
  pub components : Extends b.components b'.components
  pub sboms : Extends b.sboms b'.sboms
  pub policies : Extends b.policies b'.policies
  pub vendors : Extends b.vendors b'.vendors
  pub vendor_assessments : Extends b.vendor_assessments b'.vendor_assessments
  pub supply_links : Extends b.supply_links b'.supply_links
  pub assets : Persists b.assets b'.assets
  pub dependencies : Grows b.dependencies b'.dependencies
  pub relationships : Grows b.relationships b'.relationships
  pub audit : IsPrefix b.audit.entries b'.audit.entries

Retains-refl : (b : Backend) → Retains b b
Retains-refl b = record {
  telemetry = Extends-refl b.telemetry;
  detections = Extends-refl b.detections;
  alerts = Extends-refl b.alerts;
  incidents = Persists-refl b.incidents;
  evidence = Extends-refl b.evidence;
  recommendations = Persists-refl b.recommendations;
  approvals = Extends-refl b.approvals;
  executions = Extends-refl b.executions;
  verifications = Extends-refl b.verifications;
  requests = Extends-refl b.requests;
  results = Extends-refl b.results;
  campaigns = Persists-refl b.campaigns;
  exercises = Extends-refl b.exercises;
  assessments = Extends-refl b.assessments;
  postures = Extends-refl b.postures;
  components = Extends-refl b.components;
  sboms = Extends-refl b.sboms;
  policies = Extends-refl b.policies;
  vendors = Extends-refl b.vendors;
  vendor_assessments = Extends-refl b.vendor_assessments;
  supply_links = Extends-refl b.supply_links;
  assets = Persists-refl b.assets;
  dependencies = Grows-refl b.dependencies;
  relationships = Grows-refl b.relationships;
  audit = IsPrefix-refl b.audit.entries;
}

Retains-trans : {a b c : Backend} → Retains a b → Retains b c → Retains a c
Retains-trans p q = record {
  telemetry = Extends-trans p.telemetry q.telemetry;
  detections = Extends-trans p.detections q.detections;
  alerts = Extends-trans p.alerts q.alerts;
  incidents = Persists-trans p.incidents q.incidents;
  evidence = Extends-trans p.evidence q.evidence;
  recommendations = Persists-trans p.recommendations q.recommendations;
  approvals = Extends-trans p.approvals q.approvals;
  executions = Extends-trans p.executions q.executions;
  verifications = Extends-trans p.verifications q.verifications;
  requests = Extends-trans p.requests q.requests;
  results = Extends-trans p.results q.results;
  campaigns = Persists-trans p.campaigns q.campaigns;
  exercises = Extends-trans p.exercises q.exercises;
  assessments = Extends-trans p.assessments q.assessments;
  postures = Extends-trans p.postures q.postures;
  components = Extends-trans p.components q.components;
  sboms = Extends-trans p.sboms q.sboms;
  policies = Extends-trans p.policies q.policies;
  vendors = Extends-trans p.vendors q.vendors;
  vendor_assessments = Extends-trans p.vendor_assessments q.vendor_assessments;
  supply_links = Extends-trans p.supply_links q.supply_links;
  assets = Persists-trans p.assets q.assets;
  dependencies = Grows-trans p.dependencies q.dependencies;
  relationships = Grows-trans p.relationships q.relationships;
  audit = IsPrefix-trans p.audit q.audit;
}

module _ (lib : Library) (net : Net) where
  step_from-Retains : (c : Call) (b : Backend) → Retains b b → Retains b (step lib net c b)
  unfolding step Alerts.append Approvals.append Assessments.create Campaigns.create Campaigns.save
      Components.create Detections.append EvidenceItems.append Executions.append Exercises.create
      Incidents.create Incidents.save Policies.create Postures.create Recommendations.create
      Recommendations.save Requests.append Results.append Sboms.create SupplyLinks.create
      Links.append_dependency Links.append_relationship Telemetry.append VendorAssessments.create
      Vendors.create Verifications.append
  step_from-Retains (Call.append_telemetry v) b h =
      ground (arith, create-Extends Telemetry.kind b.telemetry v)
  step_from-Retains (Call.append_detection v) b h =
      ground (arith, create-Extends Detections.kind b.detections v)
  step_from-Retains (Call.append_alert v) b h =
      ground (arith, create-Extends Alerts.kind b.alerts v)
  step_from-Retains (Call.create_incident v) b h =
      ground (arith, create-Persists Incidents.kind b.incidents v)
  step_from-Retains (Call.save_incident v) b h =
      ground (arith, save-Persists Incidents.kind b.incidents v)
  step_from-Retains (Call.append_evidence v) b h =
      ground (arith, create-Extends EvidenceItems.kind b.evidence v)
  step_from-Retains (Call.create_recommendation v) b h =
      ground (arith, create-Persists Recommendations.kind b.recommendations v)
  step_from-Retains (Call.save_recommendation v) b h =
      ground (arith, save-Persists Recommendations.kind b.recommendations v)
  step_from-Retains (Call.append_approval v) b h =
      ground (arith, create-Extends Approvals.kind b.approvals v)
  step_from-Retains (Call.append_execution v) b h =
      ground (arith, create-Extends Executions.kind b.executions v)
  step_from-Retains (Call.append_verification v) b h =
      ground (arith, create-Extends Verifications.kind b.verifications v)
  step_from-Retains (Call.append_request v) b h =
      ground (arith, create-Extends Requests.kind b.requests v)
  step_from-Retains (Call.append_result v) b h =
      ground (arith, create-Extends Results.kind b.results v)
  step_from-Retains (Call.create_campaign v) b h =
      ground (arith, create-Persists (Campaigns.kind lib) b.campaigns (some v))
  step_from-Retains (Call.save_campaign v) b h =
      ground (arith, save-Persists (Campaigns.kind lib) b.campaigns (some v))
  step_from-Retains (Call.create_exercise v) b h =
      ground (arith, create-Extends Exercises.kind b.exercises (some v))
  step_from-Retains (Call.create_assessment v) b h =
      ground (arith, create-Extends (Assessments.kind lib) b.assessments (some v))
  step_from-Retains (Call.create_posture v) b h =
      ground (arith, create-Extends Postures.kind b.postures (some v))
  step_from-Retains (Call.create_component v) b h =
      ground (arith, create-Extends (Components.kind lib) b.components (some v))
  step_from-Retains (Call.create_sbom v) b h =
      ground (arith, create-Extends (Sboms.kind lib) b.sboms (some v))
  step_from-Retains (Call.create_policy v) b h =
      ground (arith, create-Extends Policies.kind b.policies (some v))
  step_from-Retains (Call.create_vendor v) b h =
      ground (arith, create-Extends (Vendors.kind lib) b.vendors (some v))
  step_from-Retains (Call.create_vendor_assessment v) b h =
      ground (arith, create-Extends (VendorAssessments.kind lib) b.vendor_assessments (some v))
  step_from-Retains (Call.create_supply_link v) b h =
      ground (arith, create-Extends (SupplyLinks.kind lib) b.supply_links (some v))
  step_from-Retains (Call.create_asset v) b h =
      ground (arith, create_asset-Persists lib net b.assets v)
  step_from-Retains (Call.save_asset v) b h = ground (arith, save_asset-Persists lib net b.assets v)
  step_from-Retains (Call.append_audit v) b h = ground (arith, append-IsPrefix b.audit v)
  step_from-Retains (Call.append_dependency v) b h =
      ground (arith, append_link-Grows dependency_key accepts_dependency b.dependencies v)
  step_from-Retains (Call.append_relationship v) b h =
      ground (arith, append_link-Grows relationship_key accepts_relationship b.relationships v)

  -- Whatever the state and the calls, no record of an append-only repository is lost or changed, the
  -- dependencies and the relationships included, no id of a repository with Save is lost, and the
  -- audit archive only grows at its end.
  pub run-Retains : (calls : List Call) (b : Backend) → Retains b (run lib net calls b)
  unfolding run
  run-Retains [] b = Retains-refl b
  run-Retains (c ∷ calls) b =
      Retains-trans (step_from-Retains c b (Retains-refl b)) (run-Retains calls (step lib net c b))
