-- ===== src/Response/Engine/Entries.antt =====
-- Properties of the stored recommendations that every method of the engine keeps, one id at a time.
use blueveil.Prelude.{
  ◌≡◌, refl, inl, inr, Bool-cases, Bool, true, false, String, Option, none, some, ◌==◌, eq_iff,
}
use blueveil.Prelude.Time.{Time}
use blueveil.Prelude.Dict
use blueveil.Prelude.Dict.{dict_laws}
use blueveil.Prelude.Exec.{Exec}
use blueveil.Prelude.Exec.After.{
  After, after_bind, after_lift_ok, after_require, after_modify, after_gets, after_pure,
}
use blueveil.Prelude.Exec.Keeps.{Keeps, Keeps-bind}
use blueveil.Contract.Enums.{ResponseStatus}
use blueveil.Contract.Messages.{ResponseRecommendation}
use blueveil.Response.Error.{ResponseError}
use blueveil.Response.Safety.{SafetyState, next_state, step_on, advance}
use blueveil.Response.Approval.{Duration}
use blueveil.Response.Recommend.{Inputs}
use blueveil.Response.Engine.State.{Session, new_session, Environment, Ambient, Engine, Slot, now}
use blueveil.Response.Engine.Slots.{SlotExec, decide_slot, approve_slot, execute_slot, verify_slot}
use blueveil.Response.Engine.Methods
use blueveil.Response.Engine.Methods.{
  within, live, on_found, on_open, store_unless, recommender_recommend,
}
use blueveil.Response.Engine.Recommended.{propose_for_frame, propose_for-proposed}
use blueveil.Response.Engine.Runs.{Call, recommend, decide, approve, execute, verify, step}

module _ (Q : String → Option ResponseRecommendation → Option Session → Type 0) where
  pub record Every {X : Type 0} (e : Engine X) : Type 0 where
    pub entry : (id : String) → Q id (Dict.get e.recs id) (Dict.get e.sessions id)

  put-Every :
      {X : Type 0} (e : Engine X) (id : String) (r : ResponseRecommendation) (s : Session)
      (a : Ambient X)
      → Every e
      → Q id (some r) (some s)
      → Every
          (record { recs = Dict.put e.recs id r; sessions = Dict.put e.sessions id s; ambient = a })
  put-Every e id r s a h q = record {
    entry = λ j. simp dict_laws (elim (Bool-cases (id == j)) [
      | inl p ↦ rw p (rw ((eq_iff id j).0 p) at q)
      | inr p ↦ rw p (h.entry j)
    ]);
  }

  frame-Every :
      {X : Type 0} (e e' : Engine X)
      → e'.recs ≡ e.recs
      → e'.sessions ≡ e.sessions
      → Every e
      → Every e'
  frame-Every e e' same same' h = record { entry = λ id. rw (same, same') (h.entry id) }

  -- `m` keeps the property of the recommendation that it works on.
  abbrev pub KeepsEntry : {X A : Type 0} → SlotExec X A → Type 0
  KeepsEntry {X = X} m =
      (id : String) (s : Slot X)
      → Q id (some s.rec) (some s.session)
      → Q id (some (m s).1.rec) (some (m s).1.session)

  module _ {X A : Type 0} where
    Every-within : (m : Exec (Ambient X) ResponseError A) → Keeps (Every {X = X}) (within m)
    Every-within m = record { at = λ e h. record { entry = h.entry } }

    module _ (m : SlotExec X A) (kept : KeepsEntry m) where
      on_open-Every :
          (done : Bool) (id : String) (e : Engine X) (r : ResponseRecommendation) (s : Session)
          → Every e
          → Q id (some r) (some s)
          → Every (on_open done id m r s e).1
      unfolding on_open
      on_open-Every true id e r s h q = h
      on_open-Every false id e r s h q =
          put-Every e id _ _ _ h (kept id (record { rec = r; session = s; around = e.ambient }) q)

      on_found-Every :
          (id : String) (e : Engine X) (r : Option ResponseRecommendation) (s : Option Session)
          → Every e
          → Q id r s
          → Every (on_found id m r s e).1
      unfolding on_found
      on_found-Every id e none s h q = h
      on_found-Every id e (some r) none h q = h
      on_found-Every id e (some r) (some s) h q = on_open-Every s.done id e r s h q

      Every-live : (id : String) → Keeps (Every {X = X}) (live id m)
      unfolding live
      Every-live id = record {
        at =
            λ e h. on_found-Every id e (Dict.get e.recs id) (Dict.get e.sessions id) h (h.entry id);
      }

  module _ {X : Type 0} (env : Environment X)
      (enters : (r : ResponseRecommendation) (s : Option Session)
        → r.status ≡ ResponseStatus.proposed
        → Q r.id none s
        → Q r.id (some r) (some (new_session SafetyState.recommend))) where
    store_unless-Every :
        (existing : Option ResponseRecommendation) (r : ResponseRecommendation) (e : Engine X)
        → Every e
        → r.status ≡ ResponseStatus.proposed
        → Q r.id existing (Dict.get e.sessions r.id)
        → After (store_unless env existing r) e Every
    unfolding store_unless advance next_state step_on
    store_unless-Every (some old) r e h p q = after_pure old e h
    store_unless-Every none r e h p q =
        let q' = enters r _ p q in
        after_lift_ok _ e refl (
          after_lift_ok _ e refl (
            after_require _ _ _ e h λ _. after_modify _ _ e (
              after_bind _ _ _ (put-Every e r.id r (new_session SafetyState.recommend) _ h q')
                λ _ _.
                  after_pure r _ (put-Every e r.id r (new_session SafetyState.recommend) _ h q'))))

    recommend-Every : (i : Inputs) → Keeps (Every {X = X}) (Methods.recommend env i)
    unfolding Methods.recommend recommender_recommend
    recommend-Every i = record {
      at = λ e h.
          let made : After (Methods.recommend env i) e Every =
            let e0 = (within (now env) e).1 in
            after_bind _ _ e (record { entry = h.entry })
              λ t _.
                let frame = propose_for_frame env i.incident i.alert i.detection i.events e0 in
                let h' = frame-Every e0 _ frame.0 frame.1 (record { entry = h.entry }) in
                after_bind _ _ _ h' λ r built. after_gets _ _ _ (
                  store_unless-Every _ r _ h'
                    (propose_for-proposed env i.incident i.alert i.detection i.events e0 built)
                    (h'.entry r.id)) in
          made.holds;
    }

    -- The slots of the methods keep the property for any arguments.
    pub record KeepsAll : Type 0 where
      pub decides : (actor : String) → KeepsEntry (decide_slot env actor)
      pub approves :
          (approver reason : String) (ttl : Duration) (t : Time)
          → KeepsEntry (approve_slot env approver reason ttl t)
      pub executes : (t : Time) → KeepsEntry (execute_slot env t)
      pub verifies : (t : Time) → KeepsEntry (verify_slot env t)

    pub step-Every : KeepsAll → (c : Call) (e : Engine X) → Every e → Every (step env c e)
    unfolding step Methods.decide Methods.approve Methods.execute Methods.verify
    step-Every k (recommend i) e h = (recommend-Every i).at e h
    step-Every k (decide id actor) e h =
        (Keeps-bind _ _ (Every-within (now env))
            λ t. Every-live (decide_slot env actor) (k.decides actor) id).at
          e h
    step-Every k (approve id approver reason ttl) e h =
        (Keeps-bind _ _ (Every-within (now env))
            λ t. Every-live _ (k.approves approver reason ttl t) id).at
          e h
    step-Every k (execute id) e h =
        (Keeps-bind _ _ (Every-within (now env)) λ t. Every-live _ (k.executes t) id).at e h
    step-Every k (verify id) e h =
        (Keeps-bind _ _ (Every-within (now env)) λ t. Every-live _ (k.verifies t) id).at e h
