-- ===== src/Response/Recommend/Proposals.antt =====
-- What is proposed, and for which assets.
use blueveil.Prelude.{
  ◌≡◌, ◌≢◌, refl, ◌↔◌, ◌∙◌, ap, Bool, true, false, ◌||◌, String, Option, none, some, List, [], ◌∷◌,
  arith, ◌==◌,
}
use blueveil.Prelude.Time.{Time}
use blueveil.Prelude.Names.{contains, add, sort, contains-add, contains-sort}
use blueveil.Prelude.Result.{ok}
use blueveil.Contract.Enums.{Severity, ResponseStatus, OperationType, RiskLevel}
use blueveil.Contract.Messages.{Incident, Alert, Detection, TelemetryEvent, ResponseRecommendation}
use blueveil.Contract.Response.{validate_recommendation}
use blueveil.Contract.Valid.{IsValid, validate_recommendation_iff}
use blueveil.Prelude.Library.{Library}
use blueveil.Response.Safety.{Gate, required_gate, risk_gate, operation_gate}
use blueveil.Response.Recommend.{
  severity_operation, flags_approval, collect_assets, targets_of, proposal, propose,
}

-- One of the events is about the asset.
abbrev pub is_about : List (Option TelemetryEvent) → String → Bool
is_about [] asset = false
is_about (none ∷ events) asset = is_about events asset
is_about (some e ∷ events) asset = (e.asset_id == asset) || is_about events asset

collect_assets_next :
    (e : TelemetryEvent) (events : List (Option TelemetryEvent)) (assets names : List String)
    → collect_assets (some e ∷ events) assets ≡ ok names
    → collect_assets events (add assets e.asset_id) ≡ ok names
unfolding collect_assets
collect_assets_next e events assets names h = ground arith

collect_assets-contains :
    (events : List (Option TelemetryEvent)) (assets names : List String) (asset : String)
    → collect_assets events assets ≡ ok names
    → contains names asset ≡ (contains assets asset || is_about events asset)
unfolding collect_assets
collect_assets-contains [] assets names asset h = ground arith
collect_assets-contains (none ∷ events) assets names asset h = cc h
collect_assets-contains (some e ∷ events) assets names asset h =
    let next = collect_assets_next e events assets names h in
    rw
      (
        collect_assets-contains events (add assets e.asset_id) names asset next,
        contains-add assets e.asset_id asset,
      )
      (ground arith)

targets_of-collected :
    (i : Incident) (a : Alert) (d : Detection) (events : List (Option TelemetryEvent))
    (names : List String)
    → targets_of i a d events ≡ ok names
    → (assets : List String) × (collect_assets events [] ≡ ok assets) × (names ≡ sort assets)
unfolding targets_of
targets_of-collected i a d events names h = ground arith

-- The targets of a proposal are the assets of its events, each of them and no other.
pub targets_of-is_about :
    (i : Incident) (a : Alert) (d : Detection) (events : List (Option TelemetryEvent))
    (names : List String)
    → targets_of i a d events ≡ ok names
    → (asset : String) → contains names asset ≡ is_about events asset
targets_of-is_about i a d events names h asset =
    let (assets, collected, sorted) = targets_of-collected i a d events names h in
    ap (λ l. contains l asset) sorted
    ∙ contains-sort assets asset
    ∙ collect_assets-contains events [] assets asset collected

proposed-as :
    (lib : Library) (i : Incident) (a : Alert) (d : Detection) (names : List String) (t : Time)
    (r : ResponseRecommendation)
    → propose lib i a d names t ≡ ok r
    → (r ≡ proposal lib i a d names t) × (validate_recommendation (some r) ≡ none)
unfolding propose
proposed-as lib i a d names t r h = ground arith

-- The operations that change nothing outside of the collector.
pub data ReadOnly : OperationType → Type 0 where
  reads : ReadOnly OperationType.read
  observes : ReadOnly OperationType.observe
  analyzes : ReadOnly OperationType.analyze
  recommends : ReadOnly OperationType.recommend

-- The risk that a severity passes on.
pub data Inherits : Severity → RiskLevel → Type 0 where
  from_critical : Inherits Severity.critical RiskLevel.critical
  from_high : Inherits Severity.high RiskLevel.high
  from_medium : Inherits Severity.medium RiskLevel.medium
  from_other :
      {s : Severity}
      → s ≢ Severity.critical
      → s ≢ Severity.high
      → s ≢ Severity.medium
      → Inherits s RiskLevel.low

abbrev Suits : Severity → Type 0
Suits severity =
    ReadOnly (severity_operation severity).0
    × Inherits severity (severity_operation severity).1
    × ((flags_approval (severity_operation severity).1 ≡ true) ↔ (
        required_gate (severity_operation severity).0 (severity_operation severity).1 false
        ≡ Gate.approved))

severity_operation-Suits : (severity : Severity) → Suits severity
unfolding severity_operation required_gate operation_gate risk_gate flags_approval
severity_operation-Suits Severity.critical = (analyzes, from_critical, ((λ _. refl), λ _. refl))
severity_operation-Suits Severity.high = (recommends, from_high, ((λ _. refl), λ _. refl))
severity_operation-Suits Severity.medium = (observes, from_medium, ((λ h. cc h), λ h. cc h))
severity_operation-Suits Severity.unspecified =
    (observes, from_other (λ e. cc e) (λ e. cc e) (λ e. cc e), ((λ h. cc h), λ h. cc h))
severity_operation-Suits Severity.info =
    (observes, from_other (λ e. cc e) (λ e. cc e) (λ e. cc e), ((λ h. cc h), λ h. cc h))
severity_operation-Suits Severity.low =
    (observes, from_other (λ e. cc e) (λ e. cc e) (λ e. cc e), ((λ h. cc h), λ h. cc h))
severity_operation-Suits (Severity.out_of_range n) =
    (observes, from_other (λ e. cc e) (λ e. cc e) (λ e. cc e), ((λ h. cc h), λ h. cc h))

-- What Recommend proposes is valid, in status PROPOSED, and only reads, observes, analyzes or recommends; its
-- risk is the one that the incident's severity passes on, and it is marked as needing an approval
-- exactly when its gate asks for one.
pub propose-read_only :
    (lib : Library) (i : Incident) (a : Alert) (d : Detection) (names : List String) (t : Time)
    (r : ResponseRecommendation)
    → propose lib i a d names t ≡ ok r
    → IsValid r
      × (r.status ≡ ResponseStatus.proposed)
      × ReadOnly r.operation
      × Inherits i.severity r.risk
      × ((r.approval_required ≡ true) ↔ (required_gate r.operation r.risk false ≡ Gate.approved))
unfolding proposal
propose-read_only lib i a d names t r h =
    let (same, valid) = proposed-as lib i a d names t r h in
    let (safe, inherited, gate) = severity_operation-Suits i.severity in
    (
      (validate_recommendation_iff r).0 valid,
      ap (λ (r : ResponseRecommendation). r.status) same,
      rw same safe,
      rw same inherited,
      rw same gate,
    )
