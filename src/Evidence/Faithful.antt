-- ===== src/Evidence/Faithful.antt =====
-- Items verify, and the evidence of an alert is complete.
use blueveil.Prelude.{
  ◌≡◌, ◌≢◌, sym, ap, subst, true, false, ◌||◌, not, String, Option, none, some, List, [], ◌∷◌, ◌++◌,
  ◌==◌, arith, eq_iff,
}
use blueveil.Prelude.Names.{sort}
use blueveil.Prelude.Time.{Time, is_zero, timestamp}
use blueveil.Prelude.Dict.{Dict, get}
use blueveil.Prelude.Library.{Library}
use blueveil.Prelude.Result.{ok, bind_passed, ensure_passed, ensure_none_passed, ok_injective}
use blueveil.Contract.Messages.{TelemetryEvent, Detection, Alert, Evidence}
use blueveil.Contract.Incident.{validate_evidence}
use blueveil.Evidence.Item.{evidence_build, Codec, Subject, evidence_id, verify, item_of, new_item}
use blueveil.Evidence.Alerts.{event_subject, make, event_item, event_items}

module _ (lib : Library) (codec : Codec) where
  -- An item that was taken of a subject for an incident at a time, and is untouched.
  pub record IsItem (incident_id kind ref_id : String) (now : Time) (e : Evidence) : Type 0 where
    pub verified : verify codec (some e) ≡ true
    pub valid : validate_evidence (some e) ≡ none
    pub identified : e.id ≡ evidence_id lib incident_id kind ref_id
    pub owned : e.incident_id ≡ incident_id
    pub stamped : e.collected_at ≡ some (timestamp now)

  pub new_item_lem :
      (incident_id : String) (s : Subject) (content : String) (now : Time) (e : Evidence)
      → new_item codec lib incident_id s content now ≡ ok e
      → (e ≡ item_of codec lib incident_id s content now) × (validate_evidence (some e) ≡ none)
  unfolding new_item
  new_item_lem incident_id s content now e h0 =
      let fresh = item_of codec lib incident_id s content now in
      let named = not (incident_id == "" || s.kind == "" || s.ref_id == "") in
      let (_, h1) = ensure_passed named evidence_build _ e h0 in
      let (_, h2) = ensure_passed (not (is_zero now)) evidence_build _ e h1 in
      let (valid, h3) =
        ensure_none_passed (λ _. evidence_build) (validate_evidence (some fresh)) _ e h2 in
      let same : fresh ≡ e = ok_injective h3 in
      (sym same, subst (λ x. validate_evidence (some x) ≡ none) same valid)

  -- The items, one for each id.
  abbrev pub AreItems : String → List String → Time → List Evidence → Type 0
  AreItems incident_id [] now [] = Unit
  AreItems incident_id [] now (e ∷ es) = ⊥
  AreItems incident_id (id ∷ ids) now [] = ⊥
  AreItems incident_id (id ∷ ids) now (e ∷ es) =
      IsItem incident_id "event" id now e × AreItems incident_id ids now es

  -- The evidence of an alert: the events of its detection, in the order of their ids, the detection, and the
  -- alert.
  pub record Covers (incident_id : String) (alert : Alert) (det : Detection) (now : Time)
      (es : List Evidence) : Type 0 where
    pub events : List Evidence
    pub det_item : Evidence
    pub alert_item : Evidence
    pub whole : es ≡ events ++ (det_item ∷ alert_item ∷ [])
    pub of_events : AreItems incident_id (sort det.telemetry_event_ids) now events
    pub of_detection : IsItem incident_id "detection" det.id now det_item
    pub of_alert : IsItem incident_id "alert" alert.id now alert_item

  module _ (given : (text : String) → codec.digest text ≢ "") where
    item_of-verify :
        (incident_id : String) (s : Subject) (content : String) (now : Time)
        → verify codec (some (item_of codec lib incident_id s content now)) ≡ true
    unfolding verify item_of
    item_of-verify incident_id s content now = ground (
      arith,
      given content,
      eq_iff (codec.digest content) "",
      eq_iff (codec.digest content) (codec.digest content),
    )

    new_item-IsItem :
        (incident_id : String) (s : Subject) (content : String) (now : Time) (e : Evidence)
        → new_item codec lib incident_id s content now ≡ ok e
        → IsItem incident_id s.kind s.ref_id now e
    unfolding item_of
    new_item-IsItem incident_id s content now e h =
        let (same, valid) = new_item_lem incident_id s content now e h in
        record {
          verified =
              subst (λ x. verify codec (some x) ≡ true) (sym same)
                (item_of-verify incident_id s content now);
          valid = valid;
          identified = ap (λ x. x.id) same;
          owned = ap (λ x. x.incident_id) same;
          stamped = ap (λ x. x.collected_at) same;
        }

    -- An item that NewItem has built verifies, and once its content is another text it does not, where the two
    -- texts have different digests. (No text has the empty digest.)
    pub new_item-verify :
        (incident_id : String) (s : Subject) (content other : String) (now : Time) (e : Evidence)
        → new_item codec lib incident_id s content now ≡ ok e
        → codec.digest other ≢ codec.digest content
        → (verify codec (some e) ≡ true)
          × (verify codec (some (record e { content = other })) ≡ false)
    unfolding verify item_of
    new_item-verify incident_id s content other now e h d =
        let (same, _) = new_item_lem incident_id s content now e h in
        let digest : e.sha256 ≡ codec.digest content = ap (λ x. x.sha256) same in
        (
          (new_item-IsItem incident_id s content now e h).verified,
          (ground (arith, digest, d, eq_iff (codec.digest other) e.sha256)),
        )

    pub make-IsItem :
        (incident_id : String) (s : Subject) (content : Option String) (now : Time) (e : Evidence)
        → make lib codec incident_id s content now ≡ ok e
        → IsItem incident_id s.kind s.ref_id now e
    unfolding make
    make-IsItem incident_id s none now e h = absurd (cc h)
    make-IsItem incident_id s (some content) now e h = new_item-IsItem incident_id s content now e h

    event_item-IsItem :
        (incident_id : String) (o : Option TelemetryEvent) (id : String) (now : Time) (e : Evidence)
        → event_item lib codec incident_id o id now ≡ ok e
        → IsItem incident_id "event" id now e
    unfolding event_item event_subject
    event_item-IsItem incident_id none id now e h = absurd (cc h)
    event_item-IsItem incident_id (some t) id now e h =
        make-IsItem incident_id (event_subject t id) (codec.marshal_event t) now e h

    pub event_items-AreItems :
        (incident_id : String) (found : Dict TelemetryEvent) (ids : List String) (now : Time)
        (es : List Evidence)
        → event_items lib codec incident_id found ids now ≡ ok es
        → AreItems incident_id ids now es
    unfolding event_items
    event_items-AreItems incident_id found [] now es h =
        subst (λ l. AreItems incident_id [] now l) (ok_injective h) tt
    event_items-AreItems incident_id found (id ∷ ids) now es h =
        let (e, first, h1) =
          bind_passed (event_item lib codec incident_id (get found id) id now) _ es h in
        let (rest, others, h2) =
          bind_passed (event_items lib codec incident_id found ids now) _ es h1 in
        let same : (e ∷ rest) ≡ es = ok_injective h2 in
        subst (λ l. AreItems incident_id (id ∷ ids) now l) same
          (
            event_item-IsItem incident_id (get found id) id now e first,
            event_items-AreItems incident_id found ids now rest others,
          )
