-- ===== src/Response/Engine/Runs.antt =====
-- Sequences of calls of the engine's methods. The mutex makes every history of concurrent callers
-- such a sequence.
use blueveil.Prelude.{
  ◌≡◌, Bool, true, false, String, Option, none, some, List, [], ◌∷◌, arith, ◌||◌,
}
use blueveil.Prelude.Dict
use blueveil.Prelude.Dict.{dict_laws}
use blueveil.Contract.Enums.{ResponseStatus}
use blueveil.Contract.Messages.{ResponseRecommendation}
use blueveil.Response.Safety.{required_gate}
use blueveil.Response.Safety.Human.{is_drastic, is_grave, required_gate-is_drastic}
use blueveil.Response.Approval.{Duration}
use blueveil.Response.Recommend.{Inputs}
use blueveil.Response.Engine.State.{Session, Environment, Engine, new_engine}
use blueveil.Response.Engine.Phase.{BoundBy}
use blueveil.Response.Engine.Methods
use blueveil.Response.Engine.Methods.{get, approval, approval_in}
use blueveil.Response.Engine.Sound.{
  Entry, IsSound, decide-IsSound, approve-IsSound, execute-IsSound, verify-IsSound,
}
use blueveil.Response.Engine.Recommended.{recommend-IsSound}

pub data Call : Type 0 where
  recommend : Inputs → Call
  decide : String → String → Call
  approve : String → String → String → Duration → Call
  execute verify : String → Call

module _ {X : Type 0} (env : Environment X) where
  -- The engine after a call, whatever the call returned.
  unfoldable pub step : Call → Engine X → Engine X
  step (recommend i) e = (Methods.recommend env i e).1
  step (decide id actor) e = (Methods.decide env id actor e).1
  step (approve id approver reason ttl) e = (Methods.approve env id approver reason ttl e).1
  step (execute id) e = (Methods.execute env id e).1
  step (verify id) e = (Methods.verify env id e).1

  unfoldable pub run : List Call → Engine X → Engine X
  run [] e = e
  run (c ∷ calls) e = run calls (step c e)

  step-IsSound : (c : Call) (e : Engine X) → IsSound e → IsSound (step c e)
  unfolding step
  step-IsSound (recommend i) e h = (recommend-IsSound env i e h).holds
  step-IsSound (decide id actor) e h = (decide-IsSound env id actor e h).holds
  step-IsSound (approve id approver reason ttl) e h =
      (approve-IsSound env id approver reason ttl e h).holds
  step-IsSound (execute id) e h = (execute-IsSound env id e h).holds
  step-IsSound (verify id) e h = (verify-IsSound env id e h).holds

  run_from-IsSound : (calls : List Call) (e : Engine X) → IsSound e → IsSound (run calls e)
  unfolding run
  run_from-IsSound [] e h = h
  run_from-IsSound (c ∷ calls) e h = run_from-IsSound calls (step c e) (step-IsSound c e h)

  -- After any calls on a new engine, every stored recommendation has a session, and the session is
  -- where the recommendation's status says: the safety state, what has been executed and reported,
  -- and, once the status is past the gate, an authorization.
  pub run-IsSound : (calls : List Call) (world : X) → IsSound (run calls (new_engine world))
  run-IsSound calls world =
      run_from-IsSound calls (new_engine world) (record { entry = λ id. simp dict_laws tt })

-- The statuses that a recommendation has from its execution on.
abbrev pub is_past_gate : ResponseStatus → Bool
is_past_gate ResponseStatus.executing = true
is_past_gate ResponseStatus.executed = true
is_past_gate ResponseStatus.execution_failed = true
is_past_gate ResponseStatus.verified = true
is_past_gate ResponseStatus.verification_failed = true
is_past_gate ResponseStatus.verification_unknown = true
is_past_gate _ = false

-- A destructive operation, or a high or critical risk.
abbrev pub needs_human : ResponseRecommendation → Bool
needs_human r = is_drastic r.operation || is_grave r.risk

past_gate_bound :
    (r : ResponseRecommendation) (s : Option Session)
    → Entry (some r) s
    → is_past_gate r.status ≡ true
    → needs_human r ≡ true
    → BoundBy (approval_in s) r
unfolding approval_in required_gate
past_gate_bound r none h g n = absurd h
past_gate_bound r (some s) h g n = ground (arith, required_gate-is_drastic r.operation r.risk)

module _ {X : Type 0} (env : Environment X) (calls : List Call) (world : X) where
  -- Whatever was called: a recommendation whose operation is destructive or whose risk is high or
  -- critical, and whose status is past the gate, has a recorded approval that names this
  -- recommendation with its operation, target and risk.
  pub executed_approved :
      (id : String) (r : ResponseRecommendation)
      → get (run env calls (new_engine world)) id ≡ some r
      → is_past_gate r.status ≡ true
      → needs_human r ≡ true
      → BoundBy (approval (run env calls (new_engine world)) id) r
  unfolding get approval
  executed_approved id r found past human =
      let e = run env calls (new_engine world) in
      past_gate_bound r (Dict.get e.sessions id)
        (rw found at ((run-IsSound env calls world).entry id)) past human
