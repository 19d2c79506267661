-- ===== src/Response/Engine/Sound.antt =====
-- Every method of the engine keeps each stored recommendation in step with its session.
use blueveil.Prelude.{inl, inr, Bool-cases, Bool, true, false, String, Option, none, some, ◌==◌}
use blueveil.Prelude.Dict
use blueveil.Prelude.Dict.{dict_laws}
use blueveil.Prelude.Exec.After.{After, after_bind}
use blueveil.Contract.Messages.{ResponseRecommendation}
use blueveil.Response.Approval.{Duration}
use blueveil.Response.Engine.State.{Session, Environment, Ambient, Engine, Slot, now}
use blueveil.Response.Engine.Slots.{SlotExec, decide_slot, approve_slot, execute_slot, verify_slot}
use blueveil.Response.Engine.Phase.{InPhase, IsInPhase}
use blueveil.Response.Engine.Phase.Decide.{decide_slot-InPhase, approve_slot-InPhase}
use blueveil.Response.Engine.Phase.Execute.{execute_slot-InPhase, verify_slot-InPhase}
use blueveil.Response.Engine.Methods.{live, on_found, on_open, decide, approve, execute, verify}

-- What the two maps hold under one id: nothing, or a recommendation and its session.
abbrev pub Entry : Option ResponseRecommendation → Option Session → Type 0
Entry none none = Unit
Entry (some r) (some s) = InPhase r s
Entry _ _ = ⊥

pub record IsSound {X : Type 0} (e : Engine X) : Type 0 where
  pub entry : (id : String) → Entry (Dict.get e.recs id) (Dict.get e.sessions id)

pub put-IsSound :
    {X : Type 0} (e : Engine X) (id : String) (r : ResponseRecommendation) (s : Session)
    (a : Ambient X)
    → IsSound e
    → InPhase r s
    → IsSound
        (record { recs = Dict.put e.recs id r; sessions = Dict.put e.sessions id s; ambient = a })
put-IsSound e id r s a h g = record {
  entry = λ j.
      simp dict_laws (elim (Bool-cases (id == j)) [ inl p ↦ rw p g | inr p ↦ rw p (h.entry j) ]);
}

module _ {X A : Type 0} (m : SlotExec X A)
    (kept : (s : Slot X) → IsInPhase s → After m s IsInPhase) where
  on_open-IsSound :
      (done : Bool) (id : String) (e : Engine X) (r : ResponseRecommendation) (s : Session)
      → IsSound e
      → InPhase r s
      → IsSound (on_open done id m r s e).1
  unfolding on_open
  on_open-IsSound true id e r s h g = h
  on_open-IsSound false id e r s h g =
      put-IsSound e id _ _ _ h (kept (record { rec = r; session = s; around = e.ambient }) g).holds

  on_found-IsSound :
      (id : String) (e : Engine X) (r : Option ResponseRecommendation) (s : Option Session)
      → IsSound e
      → Entry r s
      → IsSound (on_found id m r s e).1
  unfolding on_found
  on_found-IsSound id e none s h g = h
  on_found-IsSound id e (some r) none h g = h
  on_found-IsSound id e (some r) (some s) h g = on_open-IsSound s.done id e r s h g

  live-IsSound : (id : String) (e : Engine X) → IsSound e → After (live id m) e IsSound
  unfolding live
  live-IsSound id e h = record {
    holds = on_found-IsSound id e (Dict.get e.recs id) (Dict.get e.sessions id) h (h.entry id);
  }

-- A change of the ambient state alone.
pub around-IsSound :
    {X : Type 0} (e : Engine X) (a : Ambient X) → IsSound e → IsSound (record e { ambient = a })
around-IsSound e a h = record { entry = h.entry }

module _ {X : Type 0} (env : Environment X) where
  pub decide-IsSound :
      (id actor : String) (e : Engine X) → IsSound e → After (decide env id actor) e IsSound
  unfolding decide
  decide-IsSound id actor e h =
      let h' = around-IsSound e (now env e.ambient).1 h in
      after_bind _ _ e h'
        λ t _. live-IsSound (decide_slot env actor) (decide_slot-InPhase env actor) id _ h'

  pub approve-IsSound :
      (id approver reason : String) (ttl : Duration) (e : Engine X)
      → IsSound e
      → After (approve env id approver reason ttl) e IsSound
  unfolding approve
  approve-IsSound id approver reason ttl e h =
      let h' = around-IsSound e (now env e.ambient).1 h in
      after_bind _ _ e h' λ t _.
        live-IsSound (approve_slot env approver reason ttl t)
          (approve_slot-InPhase env approver reason ttl t) id _ h'

  pub execute-IsSound : (id : String) (e : Engine X) → IsSound e → After (execute env id) e IsSound
  unfolding execute
  execute-IsSound id e h =
      let h' = around-IsSound e (now env e.ambient).1 h in
      after_bind _ _ e h'
        λ t _. live-IsSound (execute_slot env t) (execute_slot-InPhase env t) id _ h'

  pub verify-IsSound : (id : String) (e : Engine X) → IsSound e → After (verify env id) e IsSound
  unfolding verify
  verify-IsSound id e h =
      let h' = around-IsSound e (now env e.ambient).1 h in
      after_bind _ _ e h'
        λ t _. live-IsSound (verify_slot env t) (verify_slot-InPhase env t) id _ h'
