-- ===== src/Validation/Executor.antt =====
-- validation/executor.go: a provider as the executor of a response, so that a validation passes the same gate
-- as any response. The checks of NewValidationExecutor for a nil store and a nil clock are left out.
pub mod Noted
pub mod Recorded
use Prim.Native.String.{◌++◌}
use blueveil.Prelude.{
  ℕ, ◌+◌, Bool, true, false, not, ◌||◌, String, Option, none, some, List, [], ◌∷◌, ◌==◌, is_empty,
  map, if◌then◌else◌,
}
use blueveil.Prelude.Names.{add, sort, join}
use blueveil.Prelude.Time.{Time, is_zero}
use blueveil.Prelude.Dict.{Dict}
use blueveil.Prelude.Library.{Library}
use blueveil.Prelude.Result.{Result, ok, err, ensure, ensure_none, ◌>>=◌, ◌>>◌}
use blueveil.Contract.Enums.{EvidenceType}
use blueveil.Contract.Messages.{TelemetryEvent, Detection, Alert, Incident, Evidence}
use blueveil.Contract.Detection.{validate_telemetry_event}
use blueveil.Contract.Validation.{ValidationVerdict, ValidationRequest, ValidationResult}
use blueveil.Response.Executor.{ExecRequest, ExecResult}
use blueveil.Evidence.Item.{Codec, Subject, EvidenceError, new_item}
use blueveil.Evidence.Store as Store
use blueveil.Validation.Error.{ValidationError, provider_failure, refused, nil_provider}
use blueveil.Validation.Provider.{Provider, check_result, check_identity}
use blueveil.Validation.Request.{build_for}
use blueveil.Validation.Native.{verdict_name}

-- What an executor is bound to.
pub record Bound : Type 0 where
  pub provider : Provider
  pub incident : Incident
  pub alert : Alert
  pub detection : Detection
  pub events : List TelemetryEvent
  pub target : String

-- What an executor changes: the evidence store that it shares with its caller, lastReq and lastRes, and how
-- often it has read the clock.
pub record Trace : Type 0 where
  pub evidence : Dict Evidence
  pub last_request : Option ValidationRequest
  pub last_result : Option ValidationResult
  pub ticks : ℕ

-- What an executor uses of other packages: digests, MarshalCanonical and the clock.
pub record Bench : Type 0 where
  pub library : Library
  pub codec : Codec
  pub marshal : ValidationResult → Option String
  pub clock : ℕ → Time

-- The loop of NewValidationExecutor: the events that are all there, and their assets.
unfoldable pub bind_events :
    List (Option TelemetryEvent)
    → List String
    → Result ValidationError (List TelemetryEvent × List String)
bind_events [] targets = ok ([], targets)
bind_events (none ∷ es) targets = err refused
bind_events (some e ∷ es) targets =
    ensure_none (λ _. refused) (validate_telemetry_event (some e))
    >> (bind_events es (add targets e.asset_id) >>= λ rest. ok (e ∷ rest.0, rest.1))

unfoldable pub bind :
    Provider
    → Incident
    → Alert
    → Detection
    → List TelemetryEvent × List String
    → Result ValidationError Bound
bind p incident alert det (events, targets) =
    ensure (not (is_empty targets)) refused
    >> ok (record {
      provider = p;
      incident = incident;
      alert = alert;
      detection = det;
      events = events;
      target = join "," (sort targets);
    })

-- NewValidationExecutor
unfoldable pub new_executor :
    Option Provider
    → Option Incident
    → Option Alert
    → Option Detection
    → List (Option TelemetryEvent)
    → Result ValidationError Bound
new_executor none incident alert det events = err nil_provider
new_executor (some p) (some incident) (some alert) (some det) events =
    bind_events events [] >>= λ found. bind p incident alert det found
new_executor (some p) _ _ _ events = err refused

abbrev pub given : Option ValidationResult → Result ValidationError ValidationResult
given none = err refused
given (some res) = ok res

-- provider.Validate with ErrProvider around its error.
abbrev pub answered :
    Result ValidationError (Option ValidationResult)
    → Result ValidationError (Option ValidationResult)
answered (ok res) = ok res
answered (err e) = err provider_failure

module _ (bench : Bench) where
  -- Execute up to CheckIdentity.
  unfoldable pub ask : Bound → Time → Result ValidationError (ValidationRequest × ValidationResult)
  ask b now = do
    ensure (not (is_zero now)) refused
    req ← build_for bench.library b.incident b.alert b.detection (map (λ e. some e) b.events) now
    answer ← answered (b.provider.validate req)
    check_result answer
    res ← given answer
    check_identity req res
    ok (req, res)

  -- The item that Execute adds.
  unfoldable pub note_subject : ValidationResult → Subject
  note_subject res = record {
    kind = "validation";
    ref_id = res.id;
    type = EvidenceType.note;
    source = res.provider;
  }

  abbrev pub marshalled : Option String → Result ValidationError String
  marshalled none = err refused
  marshalled (some content) = ok content

  abbrev pub built : Result EvidenceError Evidence → Result ValidationError Evidence
  built (ok item) = ok item
  built (err e) = err refused

  unfoldable pub note_of : Bound → ValidationResult → Time → Result ValidationError Evidence
  note_of b res now = marshalled (bench.marshal res) >>= λ content.
      built (new_item bench.codec bench.library b.incident.id (note_subject res) content now)

  unfoldable pub detail_of : ValidationRequest → ValidationResult → String
  detail_of req res = join "" (
      "provider "
      ∷ res.provider
      ∷ " answered "
      ∷ verdict_name res.verdict
      ∷ " for control "
      ∷ res.control_id
      ∷ " (request "
      ∷ req.id
      ∷ ", result "
      ∷ res.id
      ∷ ")"
      ∷ [])

  unfoldable pub report_of : ValidationRequest → ValidationResult → ValidationVerdict → ExecResult
  report_of req res ValidationVerdict.not_tested = record {
    success = false;
    detail = detail_of req res ++ ": validation not performed";
  }
  report_of req res _ = record { success = true; detail = detail_of req res }

  -- Execute from the item on.
  unfoldable pub keep :
      ValidationRequest
      → ValidationResult
      → Result ValidationError Evidence
      → Trace
      → Result ValidationError ExecResult × Trace
  keep req res (err e) w = (err e, w)
  keep req res (ok item) w =
      (ok (report_of req res res.verdict), record w { evidence = (Store.add w.evidence item).1 })

  -- Execute from the answer on.
  unfoldable pub record_answer :
      Bound
      → Time
      → Result ValidationError (ValidationRequest × ValidationResult)
      → Trace
      → Result ValidationError ExecResult × Trace
  record_answer b now (err e) w = (err e, w)
  record_answer b now (ok (req, res)) w =
      keep req res (note_of b res now)
        (record w { last_request = some req; last_result = some res })

  -- ValidationExecutor.Execute
  unfoldable pub execute : Bound → ExecRequest → Trace → Result ValidationError ExecResult × Trace
  execute b req w =
      let now = bench.clock w.ticks in
      if not (req.target == b.target) || req.target == ""
      then (err refused, w)
      else record_answer b now (ask b now) (record w { ticks = w.ticks + 1 })
