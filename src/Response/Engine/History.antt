-- ===== src/Response/Engine/History.antt =====
-- The audit log over whole histories: append-only, with ids that count.
use blueveil.Prelude.{◌≡◌, refl, Bool, true, false, String, Option, none, some, List, [], ◌∷◌, ◌++◌}
use blueveil.Prelude.Dict
use blueveil.Prelude.Exec.{Exec, modify}
use blueveil.Prelude.Exec.Keeps.{Keeps, Keeps-bind, keeps_rules}
use blueveil.Contract.Messages.{ResponseRecommendation}
use blueveil.Contract.Enums.{OperationType, RiskLevel}
use blueveil.Response.Error.{ResponseError}
use blueveil.Response.Safety.{SafetyState}
use blueveil.Response.Approval.{Duration}
use blueveil.Response.Executor.{ExecRequest}
use blueveil.Response.Audit.{AuditDecision, AuditEntry}
use blueveil.Response.Audit.Log.{Extends, unchanged, IsNumbered, Extends-prefix, Extends-IsNumbered}
use blueveil.Response.Recommend.{Inputs}
use blueveil.Response.Engine.State.{
  Session, Environment, Ambient, Engine, new_engine, now, audit_record,
}
use blueveil.Response.Engine.Slots.{SlotExec}
use blueveil.Response.Engine.Frame.{
  Continues, now_frame, audit_record-Extends, audit_record-world, Continues-decide_slot,
  Continues-approve_slot, Continues-execute_slot, Continues-verify_slot,
}
use blueveil.Response.Engine.Methods
use blueveil.Response.Engine.Methods.{
  EngineExec, within, on_open, on_found, live, recommender_recommend, store_unless, enter,
}
use blueveil.Response.Engine.Recommended.{propose_for_frame}
use blueveil.Response.Engine.Runs.{Call, recommend, decide, approve, execute, verify, step, run}

-- The log of the engine extends `old`, and its executor is one of `W`.
pub record Grown (old : List AuditEntry) {X : Type 0} (W : X → Type 0) (e : Engine X) : Type 0 where
  pub grown : Extends old e.ambient.entries
  pub world_kept : W e.ambient.world

abbrev Anything : {X : Type 0} → X → Type 0
Anything w = Unit

module _ {X A : Type 0} {old : List AuditEntry} {W : X → Type 0} where
  Grown-within :
      (m : Exec (Ambient X) ResponseError A)
      → ((a : Ambient X) → Extends old a.entries → Extends old (m a).1.entries)
      → ((a : Ambient X) → (m a).1.world ≡ a.world)
      → Keeps (Grown old W) (within m)
  Grown-within m h w = record {
    at = λ e g. record { grown = h e.ambient g.grown; world_kept = rw (w e.ambient) g.world_kept };
  }

  module _ (m : SlotExec X A)
      (kept : (r : ResponseRecommendation) → Keeps (Continues r old W) m) where
    on_open-Grown :
        (done : Bool) (id : String) (e : Engine X) (r : ResponseRecommendation) (s : Session)
        → Grown old W e
        → Grown old W (on_open done id m r s e).1
    unfolding on_open
    on_open-Grown true id e r s h = h
    on_open-Grown false id e r s h =
        let after : Continues r old W (m (record { rec = r; session = s; around = e.ambient })).1 =
          (kept r).at _ (record {
            same_id = refl;
            same_operation = refl;
            same_target = refl;
            same_risk = refl;
            grown = h.grown;
            world_kept = h.world_kept;
          }) in
        record { grown = after.grown; world_kept = after.world_kept }

    on_found-Grown :
        (id : String) (e : Engine X) (r : Option ResponseRecommendation) (s : Option Session)
        → Grown old W e
        → Grown old W (on_found id m r s e).1
    unfolding on_found
    on_found-Grown id e none s h = h
    on_found-Grown id e (some r) none h = h
    on_found-Grown id e (some r) (some s) h = on_open-Grown s.done id e r s h

    Grown-live : (id : String) → Keeps (Grown old W) (live id m)
    unfolding live
    Grown-live id = record {
      at = λ e h. on_found-Grown id e (Dict.get e.recs id) (Dict.get e.sessions id) h;
    }

module _ {X : Type 0} (env : Environment X) {old : List AuditEntry} {W : X → Type 0} where
  Grown-enter :
      (r : ResponseRecommendation) (safety : SafetyState) → Keeps (Grown old W) (enter env r safety)
  unfolding modify
  Grown-enter r safety = record {
    at = λ e h. record { grown = h.grown; world_kept = h.world_kept };
  }

  Grown-recorded :
      (actor : String) (op : OperationType) (risk : RiskLevel) (decision : AuditDecision)
      (reason result id : String) (phase : SafetyState)
      → Keeps
          (Grown old W)
          (within (audit_record env actor op risk decision reason result id phase))
  Grown-recorded actor op risk decision reason result id phase =
      Grown-within _
        (λ a h. audit_record-Extends env actor op risk decision reason result id phase a h)
        (λ a. audit_record-world env actor op risk decision reason result id phase a)

  Grown-now : Keeps (Grown old W) (within (now env))
  Grown-now = Grown-within (now env) (λ a h. rw (now_frame env a).0 h) (λ a. (now_frame env a).1)

  Grown-store_unless :
      (existing : Option ResponseRecommendation) (r : ResponseRecommendation)
      → Keeps (Grown old W) (store_unless env existing r)
  unfolding store_unless
  Grown-store_unless (some old) r = search keeps_rules depth 20
  Grown-store_unless none r = search (keeps_rules, Grown-enter, Grown-recorded) depth 20

  Grown-recommender : (i : Inputs) → Keeps (Grown old W) (recommender_recommend env i)
  unfolding recommender_recommend
  Grown-recommender i = record {
    at = λ e h.
        let frame = propose_for_frame env i.incident i.alert i.detection i.events e in
        record { grown = rw frame.2 h.grown; world_kept = rw frame.3 h.world_kept };
  }

  pub recommend-Grown : (i : Inputs) → Keeps (Grown old W) (Methods.recommend env i)
  unfolding Methods.recommend
  recommend-Grown i =
      search (keeps_rules, Grown-now, Grown-recommender, Grown-store_unless) depth 20

  pub decide-Grown : (id actor : String) → Keeps (Grown old W) (Methods.decide env id actor)
  unfolding Methods.decide
  decide-Grown id actor =
      Keeps-bind _ _ Grown-now λ t. Grown-live _ (λ r. Continues-decide_slot env actor) id

  pub approve-Grown :
      (id approver reason : String) (ttl : Duration)
      → Keeps (Grown old W) (Methods.approve env id approver reason ttl)
  unfolding Methods.approve
  approve-Grown id approver reason ttl =
      Keeps-bind _ _ Grown-now
        λ t. Grown-live _ (λ r. Continues-approve_slot env approver reason ttl t) id

  pub verify-Grown : (id : String) → Keeps (Grown old W) (Methods.verify env id)
  unfolding Methods.verify
  verify-Grown id = Keeps-bind _ _ Grown-now λ t. Grown-live _ (λ r. Continues-verify_slot env t) id

  module _ (closed : (req : ExecRequest) (w : X) → W w → W (env.execute req w).1) where
    execute-Grown : (id : String) → Keeps (Grown old W) (Methods.execute env id)
    unfolding Methods.execute
    execute-Grown id =
        Keeps-bind _ _ Grown-now λ t. Grown-live _ (λ r. Continues-execute_slot env closed t) id

    step-Grown : (c : Call) (e : Engine X) → Grown old W e → Grown old W (step env c e)
    unfolding step
    step-Grown (recommend i) e h = (recommend-Grown i).at e h
    step-Grown (decide id actor) e h = (decide-Grown id actor).at e h
    step-Grown (approve id approver reason ttl) e h = (approve-Grown id approver reason ttl).at e h
    step-Grown (execute id) e h = (execute-Grown id).at e h
    step-Grown (verify id) e h = (verify-Grown id).at e h

    run-Grown : (calls : List Call) (e : Engine X) → Grown old W e → Grown old W (run env calls e)
    unfolding run
    run-Grown [] e h = h
    run-Grown (c ∷ calls) e h = run-Grown calls (step env c e) (step-Grown c e h)

run-Extends :
    {X : Type 0} (env : Environment X) (calls : List Call) (e : Engine X)
    → Extends e.ambient.entries (run env calls e).ambient.entries
run-Extends env calls e =
    let after : Grown e.ambient.entries Anything (run env calls e) =
      run-Grown env (λ req w k. tt) calls e (record { grown = unchanged; world_kept = tt }) in
    after.grown

-- Whatever is called on a new engine, and whatever is called after that: the log after the later
-- calls is the log before them with entries added at its end, and the ids of its entries count
-- from audit-0001 without a gap.
pub run-append_only :
    {X : Type 0} (env : Environment X) (earlier later : List Call) (world : X)
    → ((added : List AuditEntry) × ((run env later
            (run env earlier (new_engine world))).ambient.entries
          ≡ (run env earlier (new_engine world)).ambient.entries ++ added))
      × IsNumbered 0 (run env later (run env earlier (new_engine world))).ambient.entries
run-append_only env earlier later world =
    let first = run-Extends env earlier (new_engine world) in
    let second = run-Extends env later (run env earlier (new_engine world)) in
    (Extends-prefix second, Extends-IsNumbered second (Extends-IsNumbered first tt))
