-- ===== src/Validation/Request/Named.antt =====
-- The request of BuildRequest names the assets of the events that the detection refers to.
use blueveil.Prelude.{
  ◌≡◌, refl, ◌∙◌, ap, Bool, true, false, not, ◌||◌, String, Option, none, some, List, [], ◌∷◌,
  is_empty, ◌==◌, if◌then◌else◌, arith, eq_iff,
}
use blueveil.Prelude.Names.{contains, add, sort, join, contains-add, contains-sort}
use blueveil.Prelude.Names.Sorted.{NoDup, IsAscending, sort-IsAscending}
use blueveil.Prelude.Time.{Time, is_zero}
use blueveil.Prelude.Dict.{Dict, empty, get, dict_laws}
use blueveil.Prelude.Library.{Library}
use blueveil.Prelude.Result.{ok, ensure_passed, ensure_none_passed, bind_passed, ok_injective}
use blueveil.Contract.Messages.{TelemetryEvent, Detection, Alert, Incident}
use blueveil.Contract.Check.{ContractError}
use blueveil.Contract.Detection.{validate_detection, validate_alert, validate_telemetry_event}
use blueveil.Contract.Incident.{validate_incident}
use blueveil.Contract.Validation.{ValidationRequest, validate_request}
use blueveil.Validation.Error.{ValidationError, validation_build, request_refused}
use blueveil.Validation.Provider.{check_request}
use blueveil.Validation.Request.Control.{FirstNames, Settles, settle}
use blueveil.Validation.Request.Found.{OneOf, found-OneOf}
use blueveil.Validation.Request.{
  Gathered, by_id, control_of, gather, gather_event, request_of, context_of, build_for,
}

abbrev owned : Option TelemetryEvent → String → Bool
owned none a = false
owned (some e) a = e.asset_id == a

-- Whether one of the events with these ids is of the asset a.
unfoldable pub is_target : Dict TelemetryEvent → List String → String → Bool
is_target found [] a = false
is_target found (id ∷ ids) a = owned (get found id) a || is_target found ids a

-- What is known of a request that BuildRequest has built.
pub record IsNamed (incident : Incident) (alert : Alert) (det : Detection)
    (events : List (Option TelemetryEvent)) (req : ValidationRequest) : Type 0 where
  pub request_valid : validate_request (some req) ≡ none
  pub alert_attached : contains incident.alert_ids alert.id ≡ true
  pub detection_cited : contains alert.detection_ids det.id ≡ true
  pub found : Dict TelemetryEvent
  pub events_found : by_id events empty ≡ ok found
  pub found_given :
      (id : String) (e : TelemetryEvent) → get found id ≡ some e → (e.id ≡ id) × OneOf e events
  pub assets : List String
  pub assets_are : (a : String) → contains assets a ≡ is_target found det.telemetry_event_ids a
  pub assets_ascending : IsAscending assets
  pub target_named : req.target ≡ join "," assets
  pub control_named : FirstNames found det.telemetry_event_ids req.control_id
  pub incident_named : get req.context "incident_id" ≡ some incident.id
  pub alert_named : get req.context "alert_id" ≡ some alert.id
  pub detection_named : get req.context "detection_id" ≡ some det.id

context_incident :
    (i : Incident) (a : Alert) (d : Detection) → get (context_of i a d) "incident_id" ≡ some i.id
unfolding context_of
context_incident i a d = simp dict_laws refl

context_alert :
    (i : Incident) (a : Alert) (d : Detection) → get (context_of i a d) "alert_id" ≡ some a.id
unfolding context_of
context_alert i a d = simp dict_laws refl

context_detection :
    (i : Incident) (a : Alert) (d : Detection) → get (context_of i a d) "detection_id" ≡ some d.id
unfolding context_of
context_detection i a d = simp dict_laws refl

add-NoDup : (xs : List String) (a : String) → NoDup xs → NoDup (add xs a)
unfolding add
add-NoDup xs a h = ground (arith, h)

-- One round of the loop.
gather_event-keeps :
    (o : Option TelemetryEvent) (g g' : Gathered)
    → gather_event o g ≡ ok g'
    → (e : TelemetryEvent) × (o ≡ some e)
      × (NoDup g.assets → NoDup g'.assets)
      × ((a : String) → contains g'.assets a ≡ (owned o a || contains g.assets a))
      × (g'.control ≡ (if g.control == "" then control_of e else g.control))
unfolding gather_event
gather_event-keeps none g g' h = absurd (cc h)
gather_event-keeps (some e) g g' h =
    let (checked, same) =
      ensure_none_passed (λ (_ : ContractError). validation_build)
        (validate_telemetry_event (some e)) _ g' h in
    let s = ok_injective same in
    rw (← s) (e, refl, add-NoDup g.assets e.asset_id, contains-add g.assets e.asset_id, refl)

or_swap : (a b c : Bool) → (a || (b || c)) ≡ ((b || a) || c)
or_swap a b c = ground arith

or_false : (a : Bool) → (a || false) ≡ a
or_false a = ground arith

gather-keeps :
    (found : Dict TelemetryEvent) (ids : List String) (g g' : Gathered)
    → gather found ids g ≡ ok g'
    → (NoDup g.assets → NoDup g'.assets)
      × ((a : String) → contains g'.assets a ≡ (is_target found ids a || contains g.assets a))
      × Settles found ids g.control g'.control
unfolding gather is_target
gather-keeps found [] g g' h =
    let s = ok_injective h in rw (← s) (λ n. n, λ a. refl, ((λ _. refl), λ e n. absurd (n e)))
gather-keeps found (id ∷ ids) g g' h =
    let (g1, now, later) = bind_passed (gather_event (get found id) g) _ g' h in
    let (e, there, dup1, assets1, control1) = gather_event-keeps (get found id) g g1 now in
    let (dup2, assets2, settles) = gather-keeps found ids g1 g' later in
    (
      λ n. dup2 (dup1 n),
      λ a.
          assets2 a
          ∙ (ap (λ b. is_target found ids a || b) (assets1 a)
              ∙ or_swap (is_target found ids a) (owned (get found id) a) (contains g.assets a)),
      settle found id ids e g.control g1.control g'.control there control1 settles,
    )

-- A request that BuildRequest gives passes its validator. The alert is one of the incident and the
-- detection one of the alert. The events are looked up by their ids among those given. Its target is
-- the assets of the detection's events, each once and in ascending order. Its control is the one that
-- the first of these events that names one names by its attribute control_id, or rule_id where that is
-- missing or empty. Its context has the ids of the incident, the alert and the detection under their
-- keys.
pub build_for-IsNamed :
    (lib : Library) (incident : Incident) (alert : Alert) (det : Detection)
    (events : List (Option TelemetryEvent)) (now : Time) (req : ValidationRequest)
    → build_for lib incident alert det events now ≡ ok req
    → IsNamed incident alert det events req
unfolding build_for check_request request_of
build_for-IsNamed lib incident alert det events now req h0 =
    let wrap : ContractError → ValidationError = λ _. validation_build in
    let (_, h1) = ensure_none_passed wrap (validate_incident (some incident)) _ req h0 in
    let (_, h2) = ensure_none_passed wrap (validate_alert (some alert)) _ req h1 in
    let (_, h3) = ensure_none_passed wrap (validate_detection (some det)) _ req h2 in
    let (attached, h4) =
      ensure_passed (contains incident.alert_ids alert.id) validation_build _ req h3 in
    let (cited, h5) =
      ensure_passed (contains alert.detection_ids det.id) validation_build _ req h4 in
    let (found, events_found, h6) = bind_passed (by_id events empty) _ req h5 in
    let (g, all, h7) = bind_passed (gather found det.telemetry_event_ids _) _ req h6 in
    let (given_control, h8) = ensure_passed (not (g.control == "")) validation_build _ req h7 in
    let (_, h9) = ensure_passed (not (is_empty (sort g.assets))) validation_build _ req h8 in
    let (_, h10) = ensure_passed (not (is_zero now)) validation_build _ req h9 in
    let (valid, h11) = ensure_none_passed (λ (_ : ContractError). request_refused) _ _ req h10 in
    let same = ok_injective h11 in
    let (dup, assets, control) = gather-keeps found det.telemetry_event_ids _ g all in
    rw (← same) (record {
      request_valid = valid;
      alert_attached = attached;
      detection_cited = cited;
      found = found;
      events_found = events_found;
      found_given = found-OneOf events found events_found;
      assets = sort g.assets;
      assets_are = λ a.
          contains-sort g.assets a
          ∙ (assets a ∙ or_false (is_target found det.telemetry_event_ids a));
      assets_ascending = sort-IsAscending g.assets (dup tt);
      target_named = refl;
      control_named = control.1 refl λ e. ground (arith, given_control, eq_iff g.control "", e);
      incident_named = context_incident incident alert det;
      alert_named = context_alert incident alert det;
      detection_named = context_detection incident alert det;
    })
