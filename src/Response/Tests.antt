-- ===== src/Response/Tests.antt =====
-- The theorems of the response engine at the run of an approved recommendation.
use blueveil.Prelude.Text.{padded}
use blueveil.Response.Approval.{
  grant, approval_of, approval_id, expiry, covers, covers_fields, expired,
}
use blueveil.Response.Engine.Slots.{
  decide_slot, settle, allow_through, park, log, approve_slot, accept, execute_slot, authorize,
  perform, run_executor, on_report, finish_execution, conclude_execution, verify_slot, judge,
  build_for, close_verification, conclude_verification,
}
use blueveil.Response.Audit.{append, audit_id}
use blueveil.Contract.Labels.{severity_name, operation_name, operation_number}
use blueveil.Contract.Check.{check_value, require_timestamp, require_ids, no_empty_id}
use blueveil.Contract.Response.{
  validate_recommendation, validate_approval, validate_execution, validate_verification,
}
use blueveil.Contract.Detection.{
  validate_alert, validate_detection, validate_telemetry_event, out_of_unit,
}
use blueveil.Contract.Incident.{validate_incident}
use blueveil.Prelude.Exec.{◌>>=◌}
use blueveil.Response.Safety.{
  advance, next_state, step_on, required_gate, operation_gate, risk_gate,
}
use blueveil.Response.Recommend.{flags_approval}
use blueveil.Response.Policy.{is_destructive, decide_risk}
use blueveil.Prelude.Names.{join, sort, add}
use blueveil.Prelude.{◌≡◌, refl, ◌+◌, ◌≤◌, some, List, [], ◌++◌}
use blueveil.Contract.Equality.{OperationType-discrete, RiskLevel-discrete}
use blueveil.Prelude.Time.{timestamp, check_valid, as_time}
use blueveil.Prelude.Dict
use blueveil.Contract.Enums.{ResponseStatus}
use blueveil.Contract.Messages.{ResponseRecommendation}
use blueveil.Prelude.Library.{derived_id}
use blueveil.Response.Policy.{default_decide}
use blueveil.Response.Executor.{
  simulated_execute, simulated_detail, build_execution, execution_of, execution_id,
}
use blueveil.Response.Verifier.{
  unknown_verify, build_verification, verification_of, verification_id,
}
use blueveil.Response.Recommend.{
  recommendation_id, targets_of, collect_assets, propose, proposal, reason_for, severity_operation,
}
use blueveil.Response.Engine.State.{new_engine, now, audit_record}
use blueveil.Response.Engine.Methods
use blueveil.Response.Engine.Lifecycle.{Follows, run-Follows, final_forever}
use blueveil.Response.Engine.Once.{executed_once, count_for, left_over, recording}
use blueveil.Response.Engine.Use.{stored_spent, Use}
use blueveil.Response.Engine.Phase.{BoundBy}
use blueveil.Response.Engine.Sound.{IsSound}
use blueveil.Response.Engine.History.{run-append_only}
use blueveil.Response.Audit.{AuditEntry}
use blueveil.Response.Audit.Log.{IsNumbered}
use blueveil.Response.Engine.Runs.{execute, run, step, run-IsSound, executed_approved}
use blueveil.Response.Samples.{lab, idle, rec_id, story, login_response, opening}

-- What the first call stores.
opened :
    Methods.get (run lab opening (new_engine idle)) rec_id
    ≡ some (login_response ResponseStatus.proposed)
unfolding Methods.get run step Methods.recommend Methods.recommender_recommend Methods.propose_for
    Methods.propose_from Methods.store_unless targets_of collect_assets propose proposal
    recommendation_id reason_for severity_operation derived_id join sort add now audit_record
    advance next_state step_on ◌>>=◌ Dict.get Dict.put validate_incident validate_alert
    validate_detection validate_telemetry_event validate_recommendation check_value
    require_timestamp require_ids no_empty_id out_of_unit severity_name append flags_approval
    timestamp check_valid
opened = refl

-- What is stored after the whole story.
ended :
    Methods.get (run lab story (new_engine idle)) rec_id
    ≡ some (login_response ResponseStatus.verification_unknown)
unfolding Methods.get run step Methods.recommend Methods.recommender_recommend Methods.propose_for
    Methods.propose_from Methods.store_unless targets_of collect_assets propose proposal
    recommendation_id reason_for severity_operation derived_id join sort add now audit_record
    advance next_state step_on ◌>>=◌ Dict.get Dict.put validate_incident validate_alert
    validate_detection validate_telemetry_event validate_recommendation check_value
    require_timestamp require_ids no_empty_id out_of_unit severity_name append flags_approval
    timestamp check_valid Methods.decide Methods.approve Methods.execute Methods.verify Methods.live
    Methods.on_found Methods.on_open decide_slot settle allow_through park log default_decide
    is_destructive decide_risk required_gate operation_gate risk_gate approve_slot accept grant
    approval_of approval_id expiry validate_approval execute_slot authorize covers covers_fields
    expired as_time perform run_executor on_report simulated_execute simulated_detail operation_name
    operation_number finish_execution build_execution execution_of execution_id validate_execution
    conclude_execution verify_slot judge build_for build_verification verification_of
    verification_id validate_verification close_verification conclude_verification unknown_verify
    audit_id padded OperationType-discrete RiskLevel-discrete
ended = refl

run-Follows_example :
    (r : ResponseRecommendation) × (Methods.get
        (run lab story (run lab opening (new_engine idle)))
        rec_id
      ≡ some r)
    × Follows (login_response ResponseStatus.proposed) r
run-Follows_example =
    run-Follows lab opening story idle rec_id (login_response ResponseStatus.proposed) opened

final_forever_example :
    (r : ResponseRecommendation) × (Methods.get
        (run lab opening (run lab story (new_engine idle)))
        rec_id
      ≡ some r)
    × (r.status ≡ ResponseStatus.verification_unknown)
final_forever_example =
    final_forever lab story opening idle rec_id (login_response ResponseStatus.verification_unknown)
      ended refl

executed_once_example :
    count_for rec_id (run (recording lab) story (new_engine ([], idle))).ambient.world.0
      + left_over
          (stored_spent (Methods.get (run (recording lab) story (new_engine ([], idle))) rec_id))
    ≤ 1
executed_once_example = executed_once lab story idle rec_id

executed_approved_example :
    BoundBy
      (Methods.approval (run lab story (new_engine idle)) rec_id)
      (login_response ResponseStatus.verification_unknown)
executed_approved_example =
    executed_approved lab story idle rec_id (login_response ResponseStatus.verification_unknown)
      ended refl refl

run-IsSound_example : IsSound (run lab story (new_engine idle))
run-IsSound_example = run-IsSound lab story idle

run-append_only_example :
    ((added : List AuditEntry) × ((run lab story
          (run lab opening (new_engine idle))).ambient.entries
        ≡ (run lab opening (new_engine idle)).ambient.entries ++ added))
    × IsNumbered 0 (run lab story (run lab opening (new_engine idle))).ambient.entries
run-append_only_example = run-append_only lab opening story idle
