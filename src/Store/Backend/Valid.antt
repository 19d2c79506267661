-- ===== src/Store/Backend/Valid.antt =====
-- Over any calls, the repositories hold valid records under their own ids.
use blueveil.Prelude.{arith, some, List, [], ◌∷◌}
use blueveil.Prelude.Library.{Library}
use blueveil.Asset.Canonical.{Net}
use blueveil.Store.Memory.Telemetry
use blueveil.Store.Memory.Detections
use blueveil.Store.Memory.Alerts
use blueveil.Store.Memory.Incidents
use blueveil.Store.Memory.EvidenceItems
use blueveil.Store.Memory.Recommendations
use blueveil.Store.Memory.Approvals
use blueveil.Store.Memory.Executions
use blueveil.Store.Memory.Verifications
use blueveil.Store.Memory.Requests
use blueveil.Store.Memory.Results
use blueveil.Store.Memory.Campaigns
use blueveil.Store.Memory.Exercises
use blueveil.Store.Memory.Assessments
use blueveil.Store.Memory.Postures
use blueveil.Store.Memory.Components
use blueveil.Store.Memory.Sboms
use blueveil.Store.Memory.Policies
use blueveil.Store.Memory.Vendors
use blueveil.Store.Memory.VendorAssessments
use blueveil.Store.Memory.SupplyLinks
use blueveil.Store.Memory.Assets
use blueveil.Store.Memory.Assets.Identity.{create_asset-Holds, save_asset-Holds}
use blueveil.Store.Table.Sound.{Holds, empty-Holds, create-Holds, save-Holds}
use blueveil.Store.Backend.{Backend, Call, new_backend, step, run}

-- Each map of the backend holds valid records under their own ids.
pub record IsValid (lib : Library) (net : Net) (b : Backend) : Type 0 where
  pub telemetry : Holds Telemetry.kind b.telemetry
  pub detections : Holds Detections.kind b.detections
  pub alerts : Holds Alerts.kind b.alerts
  pub incidents : Holds Incidents.kind b.incidents
  pub evidence : Holds EvidenceItems.kind b.evidence
  pub recommendations : Holds Recommendations.kind b.recommendations
  pub approvals : Holds Approvals.kind b.approvals
  pub executions : Holds Executions.kind b.executions
  pub verifications : Holds Verifications.kind b.verifications
  pub requests : Holds Requests.kind b.requests
  pub results : Holds Results.kind b.results
  pub campaigns : Holds (Campaigns.kind lib) b.campaigns
  pub exercises : Holds Exercises.kind b.exercises
  pub assessments : Holds (Assessments.kind lib) b.assessments
  pub postures : Holds Postures.kind b.postures
  pub components : Holds (Components.kind lib) b.components
  pub sboms : Holds (Sboms.kind lib) b.sboms
  pub policies : Holds Policies.kind b.policies
  pub vendors : Holds (Vendors.kind lib) b.vendors
  pub vendor_assessments : Holds (VendorAssessments.kind lib) b.vendor_assessments
  pub supply_links : Holds (SupplyLinks.kind lib) b.supply_links
  pub assets : Holds (Assets.kind lib net) b.assets

new_backend-IsValid : (lib : Library) (net : Net) → IsValid lib net new_backend
unfolding new_backend
new_backend-IsValid lib net = record {
  telemetry = empty-Holds Telemetry.kind;
  detections = empty-Holds Detections.kind;
  alerts = empty-Holds Alerts.kind;
  incidents = empty-Holds Incidents.kind;
  evidence = empty-Holds EvidenceItems.kind;
  recommendations = empty-Holds Recommendations.kind;
  approvals = empty-Holds Approvals.kind;
  executions = empty-Holds Executions.kind;
  verifications = empty-Holds Verifications.kind;
  requests = empty-Holds Requests.kind;
  results = empty-Holds Results.kind;
  campaigns = empty-Holds (Campaigns.kind lib);
  exercises = empty-Holds Exercises.kind;
  assessments = empty-Holds (Assessments.kind lib);
  postures = empty-Holds Postures.kind;
  components = empty-Holds (Components.kind lib);
  sboms = empty-Holds (Sboms.kind lib);
  policies = empty-Holds Policies.kind;
  vendors = empty-Holds (Vendors.kind lib);
  vendor_assessments = empty-Holds (VendorAssessments.kind lib);
  supply_links = empty-Holds (SupplyLinks.kind lib);
  assets = empty-Holds (Assets.kind lib net);
}

module _ (lib : Library) (net : Net) where
  step-IsValid : (c : Call) (b : Backend) → IsValid lib net b → IsValid lib net (step lib net c b)
  unfolding step Alerts.append Approvals.append Assessments.create Campaigns.create Campaigns.save
      Components.create Detections.append EvidenceItems.append Executions.append Exercises.create
      Incidents.create Incidents.save Policies.create Postures.create Recommendations.create
      Recommendations.save Requests.append Results.append Sboms.create SupplyLinks.create
      Telemetry.append VendorAssessments.create Vendors.create Verifications.append
  step-IsValid (Call.append_telemetry v) b h =
      ground (arith, create-Holds Telemetry.kind b.telemetry v h.telemetry)
  step-IsValid (Call.append_detection v) b h =
      ground (arith, create-Holds Detections.kind b.detections v h.detections)
  step-IsValid (Call.append_alert v) b h =
      ground (arith, create-Holds Alerts.kind b.alerts v h.alerts)
  step-IsValid (Call.create_incident v) b h =
      ground (arith, create-Holds Incidents.kind b.incidents v h.incidents)
  step-IsValid (Call.save_incident v) b h =
      ground (arith, save-Holds Incidents.kind b.incidents v h.incidents)
  step-IsValid (Call.append_evidence v) b h =
      ground (arith, create-Holds EvidenceItems.kind b.evidence v h.evidence)
  step-IsValid (Call.create_recommendation v) b h =
      ground (arith, create-Holds Recommendations.kind b.recommendations v h.recommendations)
  step-IsValid (Call.save_recommendation v) b h =
      ground (arith, save-Holds Recommendations.kind b.recommendations v h.recommendations)
  step-IsValid (Call.append_approval v) b h =
      ground (arith, create-Holds Approvals.kind b.approvals v h.approvals)
  step-IsValid (Call.append_execution v) b h =
      ground (arith, create-Holds Executions.kind b.executions v h.executions)
  step-IsValid (Call.append_verification v) b h =
      ground (arith, create-Holds Verifications.kind b.verifications v h.verifications)
  step-IsValid (Call.append_request v) b h =
      ground (arith, create-Holds Requests.kind b.requests v h.requests)
  step-IsValid (Call.append_result v) b h =
      ground (arith, create-Holds Results.kind b.results v h.results)
  step-IsValid (Call.create_campaign v) b h =
      ground (arith, create-Holds (Campaigns.kind lib) b.campaigns (some v) h.campaigns)
  step-IsValid (Call.save_campaign v) b h =
      ground (arith, save-Holds (Campaigns.kind lib) b.campaigns (some v) h.campaigns)
  step-IsValid (Call.create_exercise v) b h =
      ground (arith, create-Holds Exercises.kind b.exercises (some v) h.exercises)
  step-IsValid (Call.create_assessment v) b h =
      ground (arith, create-Holds (Assessments.kind lib) b.assessments (some v) h.assessments)
  step-IsValid (Call.create_posture v) b h =
      ground (arith, create-Holds Postures.kind b.postures (some v) h.postures)
  step-IsValid (Call.create_component v) b h =
      ground (arith, create-Holds (Components.kind lib) b.components (some v) h.components)
  step-IsValid (Call.create_sbom v) b h =
      ground (arith, create-Holds (Sboms.kind lib) b.sboms (some v) h.sboms)
  step-IsValid (Call.create_policy v) b h =
      ground (arith, create-Holds Policies.kind b.policies (some v) h.policies)
  step-IsValid (Call.create_vendor v) b h =
      ground (arith, create-Holds (Vendors.kind lib) b.vendors (some v) h.vendors)
  step-IsValid (Call.create_vendor_assessment v) b h = ground (
    arith,
    create-Holds (VendorAssessments.kind lib) b.vendor_assessments (some v) h.vendor_assessments,
  )
  step-IsValid (Call.create_supply_link v) b h =
      ground (arith, create-Holds (SupplyLinks.kind lib) b.supply_links (some v) h.supply_links)
  step-IsValid (Call.create_asset v) b h =
      ground (arith, create_asset-Holds lib net b.assets v h.assets)
  step-IsValid (Call.save_asset v) b h =
      ground (arith, save_asset-Holds lib net b.assets v h.assets)
  step-IsValid (Call.append_audit v) b h = ground arith
  step-IsValid (Call.append_dependency v) b h = ground arith
  step-IsValid (Call.append_relationship v) b h = ground arith

  run_from-IsValid :
      (calls : List Call) (b : Backend) → IsValid lib net b → IsValid lib net (run lib net calls b)
  unfolding run
  run_from-IsValid [] b h = h
  run_from-IsValid (c ∷ calls) b h = run_from-IsValid calls (step lib net c b) (step-IsValid c b h)

  -- After any calls on a new backend, every record that a map of it holds (the audit archive and the two
  -- repositories of links aside) passes the validator of its repository and stands under its own id.
  pub run-IsValid : (calls : List Call) → IsValid lib net (run lib net calls new_backend)
  run-IsValid calls = run_from-IsValid calls new_backend (new_backend-IsValid lib net)
