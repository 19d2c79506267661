-- ===== src/Store/Backend.antt =====
-- Backend and NewMemoryBackend of store/memory.go: all repositories, and the calls that write to them.
pub mod Distinct
pub mod Valid
pub mod Retained
use blueveil.Prelude.{String, Option, List, [], ◌∷◌}
use blueveil.Prelude.Dict.{Dict, empty}
use blueveil.Prelude.Library.{Library}
use blueveil.Contract.Messages.{
  TelemetryEvent, Detection, Alert, Incident, Evidence, ResponseRecommendation, ResponseApproval,
  ResponseExecution, ResponseVerification,
}
use blueveil.Contract.Validation.{ValidationRequest, ValidationResult}
use blueveil.Validation.Campaign.{Campaign}
use blueveil.Validation.Exercise.{Exercise}
use blueveil.Grc.Model.{Assessment}
use blueveil.Grc.Resilience.{ResilienceRecord}
use blueveil.SupplyChain.Component.{Component}
use blueveil.SupplyChain.Sbom.{Sbom}
use blueveil.SupplyChain.Policy.{SupplyPolicy}
use blueveil.SupplyChain.Vendor.{Vendor, VendorAssessment}
use blueveil.SupplyChain.Link.{SupplyLink}
use blueveil.Asset.Message.{Asset}
use blueveil.Asset.Canonical.{Net}
use blueveil.Asset.Discovery.{Relationship}
use blueveil.SupplyChain.Dependency.{Dependency}
use blueveil.Store.Memory.Telemetry
use blueveil.Store.Memory.Detections
use blueveil.Store.Memory.Alerts
use blueveil.Store.Memory.Incidents
use blueveil.Store.Memory.EvidenceItems
use blueveil.Store.Memory.Recommendations
use blueveil.Store.Memory.Approvals
use blueveil.Store.Memory.Executions
use blueveil.Store.Memory.Verifications
use blueveil.Store.Memory.Requests
use blueveil.Store.Memory.Results
use blueveil.Store.Memory.Campaigns
use blueveil.Store.Memory.Exercises
use blueveil.Store.Memory.Assessments
use blueveil.Store.Memory.Postures
use blueveil.Store.Memory.Components
use blueveil.Store.Memory.Sboms
use blueveil.Store.Memory.Policies
use blueveil.Store.Memory.Vendors
use blueveil.Store.Memory.VendorAssessments
use blueveil.Store.Memory.SupplyLinks
use blueveil.Store.Memory.Assets
use blueveil.Store.Memory.Audits
use blueveil.Store.Memory.Audits.{AuditEntry, Archive, new_archive}
use blueveil.Store.Memory.Links
use blueveil.Store.Table.Sound.{settled}

pub record Backend : Type 0 where
  pub telemetry : Dict TelemetryEvent
  pub detections : Dict Detection
  pub alerts : Dict Alert
  pub incidents : Dict Incident
  pub evidence : Dict Evidence
  pub recommendations : Dict ResponseRecommendation
  pub approvals : Dict ResponseApproval
  pub executions : Dict ResponseExecution
  pub verifications : Dict ResponseVerification
  pub requests : Dict ValidationRequest
  pub results : Dict ValidationResult
  pub campaigns : Dict Campaign
  pub exercises : Dict Exercise
  pub assessments : Dict Assessment
  pub postures : Dict ResilienceRecord
  pub components : Dict Component
  pub sboms : Dict Sbom
  pub policies : Dict SupplyPolicy
  pub vendors : Dict Vendor
  pub vendor_assessments : Dict VendorAssessment
  pub supply_links : Dict SupplyLink
  pub assets : Dict Asset
  pub audit : Archive
  pub dependencies : List Dependency
  pub relationships : List Relationship

unfoldable pub new_backend : Backend
new_backend = record {
  telemetry = empty;
  detections = empty;
  alerts = empty;
  incidents = empty;
  evidence = empty;
  recommendations = empty;
  approvals = empty;
  executions = empty;
  verifications = empty;
  requests = empty;
  results = empty;
  campaigns = empty;
  exercises = empty;
  assessments = empty;
  postures = empty;
  components = empty;
  sboms = empty;
  policies = empty;
  vendors = empty;
  vendor_assessments = empty;
  supply_links = empty;
  assets = empty;
  audit = new_archive;
  dependencies = [];
  relationships = [];
}

pub data Call : Type 0 where
  append_telemetry : Option TelemetryEvent → Call
  append_detection : Option Detection → Call
  append_alert : Option Alert → Call
  create_incident : Option Incident → Call
  save_incident : Option Incident → Call
  append_evidence : Option Evidence → Call
  create_recommendation : Option ResponseRecommendation → Call
  save_recommendation : Option ResponseRecommendation → Call
  append_approval : Option ResponseApproval → Call
  append_execution : Option ResponseExecution → Call
  append_verification : Option ResponseVerification → Call
  append_request : Option ValidationRequest → Call
  append_result : Option ValidationResult → Call
  create_campaign : Campaign → Call
  save_campaign : Campaign → Call
  create_exercise : Exercise → Call
  create_assessment : Assessment → Call
  create_posture : ResilienceRecord → Call
  create_component : Component → Call
  create_sbom : Sbom → Call
  create_policy : SupplyPolicy → Call
  create_vendor : Vendor → Call
  create_vendor_assessment : VendorAssessment → Call
  create_supply_link : SupplyLink → Call
  create_asset save_asset : Option Asset → Call
  append_audit : AuditEntry → Call
  append_dependency : Dependency → Call
  append_relationship : Relationship → Call

module _ (lib : Library) (net : Net) where
  -- The backend after a call, whatever the call returned.
  unfoldable pub step : Call → Backend → Backend
  step (append_telemetry v) b = record b {
    telemetry = settled b.telemetry (Telemetry.append b.telemetry v);
  }
  step (append_detection v) b = record b {
    detections = settled b.detections (Detections.append b.detections v);
  }
  step (append_alert v) b = record b { alerts = settled b.alerts (Alerts.append b.alerts v) }
  step (create_incident v) b = record b {
    incidents = settled b.incidents (Incidents.create b.incidents v);
  }
  step (save_incident v) b = record b {
    incidents = settled b.incidents (Incidents.save b.incidents v);
  }
  step (append_evidence v) b = record b {
    evidence = settled b.evidence (EvidenceItems.append b.evidence v);
  }
  step (create_recommendation v) b = record b {
    recommendations = settled b.recommendations (Recommendations.create b.recommendations v);
  }
  step (save_recommendation v) b = record b {
    recommendations = settled b.recommendations (Recommendations.save b.recommendations v);
  }
  step (append_approval v) b = record b {
    approvals = settled b.approvals (Approvals.append b.approvals v);
  }
  step (append_execution v) b = record b {
    executions = settled b.executions (Executions.append b.executions v);
  }
  step (append_verification v) b = record b {
    verifications = settled b.verifications (Verifications.append b.verifications v);
  }
  step (append_request v) b = record b {
    requests = settled b.requests (Requests.append b.requests v);
  }
  step (append_result v) b = record b { results = settled b.results (Results.append b.results v) }
  step (create_campaign v) b = record b {
    campaigns = settled b.campaigns (Campaigns.create lib b.campaigns v);
  }
  step (save_campaign v) b = record b {
    campaigns = settled b.campaigns (Campaigns.save lib b.campaigns v);
  }
  step (create_exercise v) b = record b {
    exercises = settled b.exercises (Exercises.create b.exercises v);
  }
  step (create_assessment v) b = record b {
    assessments = settled b.assessments (Assessments.create lib b.assessments v);
  }
  step (create_posture v) b = record b {
    postures = settled b.postures (Postures.create b.postures v);
  }
  step (create_component v) b = record b {
    components = settled b.components (Components.create lib b.components v);
  }
  step (create_sbom v) b = record b { sboms = settled b.sboms (Sboms.create lib b.sboms v) }
  step (create_policy v) b = record b {
    policies = settled b.policies (Policies.create b.policies v);
  }
  step (create_vendor v) b = record b {
    vendors = settled b.vendors (Vendors.create lib b.vendors v);
  }
  step (create_vendor_assessment v) b = record b {
    vendor_assessments =
        settled b.vendor_assessments (VendorAssessments.create lib b.vendor_assessments v);
  }
  step (create_supply_link v) b = record b {
    supply_links = settled b.supply_links (SupplyLinks.create lib b.supply_links v);
  }
  step (create_asset v) b = record b {
    assets = settled b.assets (Assets.create lib net b.assets v);
  }
  step (save_asset v) b = record b { assets = settled b.assets (Assets.save lib net b.assets v) }
  step (append_audit v) b = record b { audit = settled b.audit (Audits.append b.audit v) }
  step (append_dependency v) b = record b {
    dependencies = settled b.dependencies (Links.append_dependency b.dependencies v);
  }
  step (append_relationship v) b = record b {
    relationships = settled b.relationships (Links.append_relationship b.relationships v);
  }

  unfoldable pub run : List Call → Backend → Backend
  run [] b = b
  run (c ∷ calls) b = run calls (step c b)
