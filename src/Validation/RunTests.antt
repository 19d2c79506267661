-- ===== src/Validation/RunTests.antt =====
-- A validation of a login by the scripted provider: one execution, and a whole run.
use blueveil.Response.Approval.{approval_id}
use blueveil.Response.Recommend.{recommendation_id}
use blueveil.Response.Engine.Methods
use blueveil.Prelude.{ℕ, Bool, true, false, String, Option, none, some, List, [], ◌∷◌}
use blueveil.Prelude.Dict
use blueveil.Prelude.Result.{Result, ok, err}
use blueveil.Contract.Enums.{OperationType, RiskLevel}
use blueveil.Contract.Messages.{TelemetryEvent}
use blueveil.Contract.Validation.{ValidationVerdict, ValidationRequest, ValidationResult}
use blueveil.Response.Executor.{ExecRequest}
use blueveil.Response.Samples.{
  plain, noon, login_event, login_detection, login_alert, login_incident,
}
use blueveil.Evidence.Item.{Codec}
use blueveil.Validation.Error.{ValidationError}
use blueveil.Validation.Provider.{Provider}
use blueveil.Validation.Native.{ScriptedProvider, scripted_info, scripted_validate, scripted_result}
use blueveil.Validation.Request.{request_of}
use blueveil.Validation.Executor.{Bound, Trace, Bench}
use blueveil.Validation.Runner.{Harness, CaseParams, CaseOutcome}

abbrev constant : Codec
constant = record {
  digest = λ t. "0000000000000000000000000000000000000000000000000000000000000001";
  marshal_event = λ e. some e.id;
  marshal_detection = λ d. some d.id;
  marshal_alert = λ a. some a.id;
}

abbrev bench : Bench
bench = record { library = plain; codec = constant; marshal = λ r. some r.id; clock = λ n. noon }

abbrev blocking : ScriptedProvider
blocking = record {
  version = "1";
  default_verdict = ValidationVerdict.prevented;
  scenario = Dict.empty;
}

abbrev offered :
    Result ValidationError ValidationResult → Result ValidationError (Option ValidationResult)
offered (ok res) = ok (some res)
offered (err e) = err e

abbrev scripted : Provider
scripted = record {
  info = scripted_info blocking;
  validate = λ req. offered (scripted_validate plain blocking req noon);
}

abbrev marked : TelemetryEvent
marked = record login_event { attributes = Dict.put Dict.empty "rule_id" "waf-1" }

abbrev bound : Bound
bound = record {
  provider = scripted;
  incident = login_incident;
  alert = login_alert;
  detection = login_detection;
  events = marked ∷ [];
  target = "web01";
}

abbrev idle : Trace
idle = record { evidence = Dict.empty; last_request = none; last_result = none; ticks = 0 }

abbrev order : ExecRequest
order = record {
  operation = OperationType.recommend;
  target = "web01";
  risk = RiskLevel.high;
  recommendation_id = "r1";
  approval_id = "p1";
}

abbrev harness : Harness
harness = record { bench = bench; message = λ e. "refused"; engine_clock = λ n. noon }

abbrev login_case : CaseParams
login_case = record {
  provider = some scripted;
  incident = some login_incident;
  alert = some login_alert;
  detection = some login_detection;
  events = some marked ∷ [];
  actor = "alice";
  reason = "drill";
}

abbrev asked : ValidationRequest
asked =
    request_of plain login_incident login_alert login_detection
      (record { assets = "web01" ∷ []; control = "waf-1" }) noon

abbrev told : CaseOutcome
told = record {
  request = asked;
  result = scripted_result plain blocking asked noon;
  success = true;
}
