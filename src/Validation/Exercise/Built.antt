-- ===== src/Validation/Exercise/Built.antt =====
-- BuildExercise gives an exercise that its validator accepts.
use Prim.Native.Char.{char}
use blueveil.Prelude.{
  append_nil, append_assoc, ◌≡◌, refl, sym, ap, ◌∙◌, Bool, true, false, String, none, List, [], ◌∷◌,
  ◌++◌, is_empty, map,
}
use blueveil.Prelude.Int.{ℤ}
use blueveil.Prelude.Space.{is_space}
use blueveil.Prelude.Space.Blank.{is_blank-append}
use blueveil.Prelude.Library.{Library, derived_id}
use blueveil.Prelude.Result.{ok, ensure_none_passed, bind_passed, ok_injective}
use blueveil.Contract.Check.{ContractError}
use blueveil.Contract.Fields.{required, refuse_if}
use blueveil.Contract.Passed.{required_iff}
use blueveil.Contract.Valid.{>>-eq-none}
use blueveil.Contract.Validation.{ValidationVerdict}
use blueveil.Validation.Exercise.{
  ExerciseEntryInput, ExerciseInput, ExerciseEntry, Exercise, verdict_status, exercise_status_for,
  valid_exercise_status, validate_entry, validate_entries, validate_exercise, check_entry, entry_of,
  build_entries, check_exercise_input, exercise_of, build_exercise,
}

verdict_status-valid : (v : ValidationVerdict) → valid_exercise_status (verdict_status v) ≡ true
unfolding verdict_status valid_exercise_status
verdict_status-valid ValidationVerdict.unspecified = refl
verdict_status-valid ValidationVerdict.prevented = refl
verdict_status-valid ValidationVerdict.detected = refl
verdict_status-valid ValidationVerdict.prevented_and_detected = refl
verdict_status-valid ValidationVerdict.allowed_but_detected = refl
verdict_status-valid ValidationVerdict.allowed_and_not_detected = refl
verdict_status-valid ValidationVerdict.rate_limited = refl
verdict_status-valid ValidationVerdict.unknown = refl
verdict_status-valid ValidationVerdict.not_tested = refl
verdict_status-valid (ValidationVerdict.out_of_range n) = refl

status-valid :
    (v : ValidationVerdict) (b : Bool) → valid_exercise_status (exercise_status_for v b) ≡ true
unfolding exercise_status_for valid_exercise_status
status-valid v true = refl
status-valid v false = verdict_status-valid v

-- What a verdict says of a case: a failure of the provider is never a verdict, and a verdict that says nothing
-- is an unknown outcome.
pub data Tells : ValidationVerdict → Bool → String → Type 0 where
  provider_failed : (v : ValidationVerdict) → Tells v true "PROVIDER_FAILURE"
  prevented : Tells ValidationVerdict.prevented false "PREVENTED"
  detected : Tells ValidationVerdict.detected false "DETECTED"
  both : Tells ValidationVerdict.prevented_and_detected false "PREVENTED_AND_DETECTED"
  allowed_detected : Tells ValidationVerdict.allowed_but_detected false "ALLOWED_BUT_DETECTED"
  allowed_missed : Tells ValidationVerdict.allowed_and_not_detected false "ALLOWED_AND_NOT_DETECTED"
  limited : Tells ValidationVerdict.rate_limited false "RATE_LIMITED"
  untested : Tells ValidationVerdict.not_tested false "NOT_TESTED"
  unknown : Tells ValidationVerdict.unknown false "UNKNOWN_OUTCOME"
  unset : Tells ValidationVerdict.unspecified false "UNKNOWN_OUTCOME"
  unlisted : (n : ℤ) → Tells (ValidationVerdict.out_of_range n) false "UNKNOWN_OUTCOME"

-- The entry of an input: the same ids, verdict and evidence, and the status that they tell.
pub record Enters (i : ExerciseEntryInput) (e : ExerciseEntry) : Type 0 where
  pub same_case : e.case_id ≡ i.case_id
  pub same_request : e.request_id ≡ i.request_id
  pub same_result : e.result_id ≡ i.result_id
  pub same_verdict : e.verdict ≡ i.verdict
  pub status_told : Tells i.verdict i.provider_failed e.status
  pub same_telemetry : e.telemetry_ids ≡ i.telemetry_ids
  pub same_detections : e.detection_ids ≡ i.detection_ids
  pub same_alerts : e.alert_ids ≡ i.alert_ids
  pub same_incidents : e.incident_ids ≡ i.incident_ids
  pub same_evidence : e.evidence_ids ≡ i.evidence_ids

-- An entry for each input, in their order.
abbrev pub AllEnter : List ExerciseEntryInput → List ExerciseEntry → Type 0
AllEnter [] [] = Unit
AllEnter [] (e ∷ es) = ⊥
AllEnter (i ∷ is) [] = ⊥
AllEnter (i ∷ is) (e ∷ es) = Enters i e × AllEnter is es

verdict_status-Tells : (v : ValidationVerdict) → Tells v false (verdict_status v)
unfolding verdict_status
verdict_status-Tells ValidationVerdict.unspecified = unset
verdict_status-Tells ValidationVerdict.prevented = prevented
verdict_status-Tells ValidationVerdict.detected = detected
verdict_status-Tells ValidationVerdict.prevented_and_detected = both
verdict_status-Tells ValidationVerdict.allowed_but_detected = allowed_detected
verdict_status-Tells ValidationVerdict.allowed_and_not_detected = allowed_missed
verdict_status-Tells ValidationVerdict.rate_limited = limited
verdict_status-Tells ValidationVerdict.unknown = unknown
verdict_status-Tells ValidationVerdict.not_tested = untested
verdict_status-Tells (ValidationVerdict.out_of_range n) = unlisted n

status-Tells :
    (v : ValidationVerdict) (failed : Bool) → Tells v failed (exercise_status_for v failed)
unfolding exercise_status_for
status-Tells v true = provider_failed v
status-Tells v false = verdict_status-Tells v

map-AllEnter : (is : List ExerciseEntryInput) → AllEnter is (map entry_of is)
unfolding entry_of
map-AllEnter [] = tt
map-AllEnter (i ∷ is) = (
  record {
    same_case = refl;
    same_request = refl;
    same_result = refl;
    same_verdict = refl;
    status_told = status-Tells i.verdict i.provider_failed;
    same_telemetry = refl;
    same_detections = refl;
    same_alerts = refl;
    same_incidents = refl;
    same_evidence = refl;
  },
  map-AllEnter is,
)

entry_of-valid :
    (e : ExerciseEntryInput) → check_entry e ≡ none → validate_entry (entry_of e) ≡ none
unfolding check_entry validate_entry entry_of refuse_if
entry_of-valid e h0 =
    let (case_id, h1) = >>-eq-none (required "case_id" e.case_id) _ h0 in
    let (request, h2) = >>-eq-none (required "request_id" e.request_id) _ h1 in
    let (result, h3) = >>-eq-none (required "result_id" e.result_id) _ h2 in
    let (telemetry, verdict) =
      >>-eq-none (refuse_if (is_empty e.telemetry_ids) "telemetry_ids") _ h3 in
    rw (case_id, request, result, telemetry, verdict, status-valid e.verdict e.provider_failed) refl

validate_entries-append :
    (xs : List ExerciseEntry) (y : ExerciseEntry)
    → validate_entries xs ≡ none
    → validate_entry y ≡ none
    → validate_entries (xs ++ (y ∷ [])) ≡ none
unfolding validate_entries
validate_entries-append [] y h k = rw (k) refl
validate_entries-append (x ∷ xs) y h k =
    let (first, rest) = >>-eq-none (validate_entry x) (validate_entries xs) h in
    rw (first) (validate_entries-append xs y rest k)

build_entries-valid :
    (es : List ExerciseEntryInput) (acc : List ExerciseEntry) (parts : List String)
    (r : List ExerciseEntry × List String)
    → build_entries es acc parts ≡ ok r
    → validate_entries acc ≡ none
    → (validate_entries r.0 ≡ none) × (r.0 ≡ acc ++ map entry_of es)
unfolding build_entries
build_entries-valid [] acc parts r h valid =
    let same = ok_injective h in (rw (← same) valid, rw (← same) (sym (append_nil acc)))
build_entries-valid (e ∷ es) acc parts r h valid =
    let (checked, rest) = ensure_none_passed (λ (c : ContractError). c) (check_entry e) _ r h in
    let (all, same) =
      build_entries-valid es (acc ++ (entry_of e ∷ [])) _ r rest
        (validate_entries-append acc (entry_of e) valid (entry_of-valid e checked)) in
    (all, same ∙ append_assoc acc (entry_of e ∷ []) (map entry_of es))

is_empty-map : (es : List ExerciseEntryInput) → is_empty (map entry_of es) ≡ is_empty es
is_empty-map [] = refl
is_empty-map (e ∷ es) = refl

build_exercise-mapped :
    (lib : Library) (i : ExerciseInput) (e : Exercise)
    → build_exercise lib i ≡ ok e
    → (validate_exercise e ≡ none)
      × (e.entries ≡ map entry_of i.entries)
      × (e.campaign_id ≡ i.campaign_id)
      × (e.name ≡ i.name)
      × (e.source ≡ i.source)
unfolding build_exercise validate_exercise check_exercise_input exercise_of derived_id is_space
    validate_entries
build_exercise-mapped lib i e h0 =
    let (input, h1) =
      ensure_none_passed (λ (c : ContractError). c) (check_exercise_input i) _ e h0 in
    let (r, built, h2) =
      bind_passed (build_entries i.entries [] _) (λ r. ok (exercise_of lib i r)) e h1 in
    let same = ok_injective h2 in
    let (valid, entries) = build_entries-valid i.entries [] _ r built refl in
    let (campaign, h3) = >>-eq-none (required "campaign_id" i.campaign_id) _ input in
    let (name, h4) = >>-eq-none (required "name" i.name) _ h3 in
    let (source, some_entries) = >>-eq-none (required "source" i.source) _ h4 in
    let id =
      (required_iff "id" (exercise_of lib i r).id).1 (is_blank-append (char 112 tt) "ex-" _ refl) in
    rw (← same) (
      rw (id, campaign, name, source, entries, is_empty-map i.entries, some_entries)
          (ap validate_entries (sym entries) ∙ valid),
      entries,
      refl,
      refl,
      refl,
    )

-- What BuildExercise accepts becomes an exercise that its own validator accepts, of the input's campaign, name
-- and source. It has an entry for each one of the input, in their order, with the same ids of the
-- case, request, result, telemetry, detections, alerts, incidents and evidence, the same verdict, and
-- the status that the verdict tells, or PROVIDER_FAILURE where the provider failed.
pub build_exercise-valid :
    (lib : Library) (i : ExerciseInput) (e : Exercise)
    → build_exercise lib i ≡ ok e
    → (validate_exercise e ≡ none)
      × (e.campaign_id ≡ i.campaign_id)
      × (e.name ≡ i.name)
      × (e.source ≡ i.source)
      × AllEnter i.entries e.entries
build_exercise-valid lib i e h =
    let (valid, entries, campaign, name, source) = build_exercise-mapped lib i e h in
    (valid, campaign, name, source, rw entries (map-AllEnter i.entries))
