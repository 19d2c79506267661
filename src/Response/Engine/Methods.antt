-- ===== src/Response/Engine/Methods.antt =====
-- The exported methods of response/engine.go.
use blueveil.Prelude.{◌+◌, Bool, true, false, String, Option, none, some, List}
use blueveil.Prelude.Time.{Time}
use blueveil.Prelude.Dict
use blueveil.Prelude.Exec.{
  Outcome, returned, raised, panicked, Exec, pure, fail, lift, gets, modify, require, ◌>>=◌, ◌>>◌,
}
use blueveil.Contract.Messages.{
  TelemetryEvent, Detection, Alert, Incident, ResponseRecommendation, ResponseApproval,
  ResponseExecution, ResponseVerification,
}
use blueveil.Response.Error.{
  ResponseError, response_build, response_state, safety_violation, unknown_recommendation,
}
use blueveil.Response.Safety.{SafetyState, observe, automatic, advance}
use blueveil.Response.Approval.{Duration}
use blueveil.Response.Audit.{AuditDecision}
use blueveil.Response.Recommend.{Inputs, targets_of, propose}
use blueveil.Response.Engine.State.{
  Session, new_session, Environment, Ambient, Engine, Slot, now, audit_record,
}
use blueveil.Response.Engine.Slots.{
  SlotExec, at_recommend, decide_slot, approve_slot, execute_slot, verify_slot,
}

abbrev pub EngineExec : Type 0 → Type 0 → Type 0
EngineExec X A = Exec (Engine X) ResponseError A

unfoldable pub approval_in : Option Session → Option ResponseApproval
approval_in none = none
approval_in (some session) = session.approval

module _ {X : Type 0} where
  abbrev pub within : {A : Type 0} → Exec (Ambient X) ResponseError A → EngineExec X A
  within m e = let (r, a) = m e.ambient in (r, record e { ambient = a })

  -- Writes back what a method has done through the pointers.
  abbrev pub write_back :
      {A : Type 0}
      → String
      → Engine X
      → Outcome ResponseError A × Slot X
      → Outcome ResponseError A × Engine X
  write_back rec_id e (r, s) = (
    r,
    record {
      recs = Dict.put e.recs rec_id s.rec;
      sessions = Dict.put e.sessions rec_id s.session;
      ambient = s.around;
    },
  )

  -- The test of sess.done: a terminal recommendation is refused.
  unfoldable pub on_open :
      {A : Type 0}
      → Bool
      → String
      → SlotExec X A
      → ResponseRecommendation
      → Session
      → EngineExec X A
  on_open true rec_id m rec session e = (raised response_state, e)
  on_open false rec_id m rec session e =
      write_back rec_id e (m (record { rec = rec; session = session; around = e.ambient }))

  -- A missing session is a nil pointer.
  unfoldable pub on_found :
      {A : Type 0}
      → String
      → SlotExec X A
      → Option ResponseRecommendation
      → Option Session
      → EngineExec X A
  on_found rec_id m none session e = (raised unknown_recommendation, e)
  on_found rec_id m (some rec) none e = (panicked, e)
  on_found rec_id m (some rec) (some session) e = on_open session.done rec_id m rec session e

  -- e.live, and the rest of the method on what it returns.
  unfoldable pub live : {A : Type 0} → String → SlotExec X A → EngineExec X A
  live rec_id m e = on_found rec_id m (Dict.get e.recs rec_id) (Dict.get e.sessions rec_id) e

  -- Engine.Get
  unfoldable pub get : Engine X → String → Option ResponseRecommendation
  get e rec_id = Dict.get e.recs rec_id

  -- Engine.Approval
  unfoldable pub approval : Engine X → String → Option ResponseApproval
  approval e rec_id = approval_in (Dict.get e.sessions rec_id)

module _ {X : Type 0} (env : Environment X) where
  -- r.clock()
  abbrev pub reading : Exec (Ambient X) ResponseError Time
  reading a = (returned (env.clock a.ticks), record a { ticks = a.ticks + 1 })

  unfoldable pub propose_from :
      Incident
      → Alert
      → Detection
      → List (Option TelemetryEvent)
      → EngineExec X ResponseRecommendation
  propose_from incident alert det events = do
    names ← lift (targets_of incident alert det events)
    t ← within reading
    lift (propose env.library incident alert det names t)

  unfoldable pub propose_for :
      Option Incident
      → Option Alert
      → Option Detection
      → List (Option TelemetryEvent)
      → EngineExec X ResponseRecommendation
  propose_for (some incident) (some alert) (some det) events =
      propose_from incident alert det events
  propose_for _ _ _ events = fail response_build

  -- Recommender.Recommend
  unfoldable pub recommender_recommend : Inputs → EngineExec X ResponseRecommendation
  recommender_recommend i = propose_for i.incident i.alert i.detection i.events

  abbrev pub enter : ResponseRecommendation → SafetyState → EngineExec X (Unit {0})
  enter rec safety = modify (λ e. record e {
    recs = Dict.put e.recs rec.id rec;
    sessions = Dict.put e.sessions rec.id (new_session safety);
  })

  -- A stored recommendation is returned as it is, a new one is entered.
  unfoldable pub store_unless :
      Option ResponseRecommendation → ResponseRecommendation → EngineExec X ResponseRecommendation
  store_unless (some existing) rec = pure existing
  store_unless none rec = do
    first ← lift (advance observe automatic)
    safety ← lift (advance first automatic)
    require (at_recommend safety) safety_violation
    enter rec safety
    within (
        audit_record env rec.recommended_by rec.operation rec.risk AuditDecision.recommended
          rec.reason rec.id rec.id SafetyState.recommend)
    pure rec

  -- Engine.Recommend
  unfoldable pub recommend : Inputs → EngineExec X ResponseRecommendation
  recommend i = do
    within (now env)
    rec ← recommender_recommend i
    existing ← gets (λ e. Dict.get e.recs rec.id)
    store_unless existing rec

  -- Engine.Decide
  unfoldable pub decide : String → String → EngineExec X ResponseRecommendation
  decide rec_id actor = do within (now env); live rec_id (decide_slot env actor)

  -- Engine.Approve
  unfoldable pub approve : String → String → String → Duration → EngineExec X ResponseApproval
  approve rec_id approver reason ttl = do
    t ← within (now env)
    live rec_id (approve_slot env approver reason ttl t)

  -- Engine.Execute
  unfoldable pub execute : String → EngineExec X ResponseExecution
  execute rec_id = do t ← within (now env); live rec_id (execute_slot env t)

  -- Engine.Verify
  unfoldable pub verify : String → EngineExec X ResponseVerification
  verify rec_id = do t ← within (now env); live rec_id (verify_slot env t)
