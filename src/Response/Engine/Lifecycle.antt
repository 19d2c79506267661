-- ===== src/Response/Engine/Lifecycle.antt =====
-- What becomes of a stored recommendation over any calls of the engine's methods.
use blueveil.Prelude.{
  ◌≡◌, refl, ◌∙◌, inl, inr, Bool, true, false, String, Option, none, some, List, [], ◌∷◌,
}
use blueveil.Prelude.Dict
use blueveil.Prelude.Dict.{dict_laws}
use blueveil.Prelude.Exec.After.{After}
use blueveil.Prelude.Exec.Keeps.{Keeps}
use blueveil.Contract.Enums.{ResponseStatus}
use blueveil.Contract.Messages.{ResponseRecommendation}
use blueveil.Response.Engine.State.{Session, Environment, Engine, Slot, new_engine}
use blueveil.Response.Engine.Slots.{SlotExec}
use blueveil.Response.Engine.Frame.{
  Continues, Continues-refl, Continues-decide_slot, Continues-approve_slot, Continues-execute_slot,
  Continues-verify_slot,
}
use blueveil.Response.Engine.Phase.{IsInPhase}
use blueveil.Response.Engine.Phase.Decide.{decide_slot-InPhase, approve_slot-InPhase}
use blueveil.Response.Engine.Phase.Execute.{execute_slot-InPhase, verify_slot-InPhase}
use blueveil.Response.Engine.Sound.{Entry}
use blueveil.Response.Engine.Recommended.{new_session-InPhase}
use blueveil.Response.Engine.Runs.{Call, step, run, run-IsSound}
use blueveil.Response.Engine.Methods.{get}
use blueveil.Response.Engine.Entries.{Every, KeepsEntry, step-Every}
use blueveil.Response.Engine.Transitions.{
  Transition, parks, Reaches, here, onward, Moves, MovedFrom, decide_slot-moves, approve_slot-moves,
  execute_slot-moves, verify_slot-moves,
}

-- `r'` is `r` after some calls: the status has moved on, and what an approval binds is the same.
pub record Follows (r r' : ResponseRecommendation) : Type 0 where
  pub reaches : Reaches r.status r'.status
  pub same_id : r'.id ≡ r.id
  pub same_operation : r'.operation ≡ r.operation
  pub same_target : r'.target ≡ r.target
  pub same_risk : r'.risk ≡ r.risk

abbrev pub Since : Option ResponseRecommendation → Option ResponseRecommendation → Type 0
Since none none = Unit
Since none (some r) = Reaches ResponseStatus.proposed r.status
Since (some r) (some r') = Follows r r'
Since (some r) none = ⊥

record SoundSince {X : Type 0} (e : Engine X) (id : String) (r : Option ResponseRecommendation)
    (s : Option Session) : Type 0 where
  sound : Entry r s
  since : Since (Dict.get e.recs id) r

moved_on : {a b c : ResponseStatus} → Reaches a b → Moves b c → Reaches a c
moved_on r (inl e) = rw e r
moved_on r (inr t) = onward r t

Since-entered :
    (before : Option ResponseRecommendation) (r : ResponseRecommendation)
    → r.status ≡ ResponseStatus.proposed
    → Since before none
    → Since before (some r)
Since-entered none r p h = rw p here
Since-entered (some b) r p h = absurd h

Since-refl : (o : Option ResponseRecommendation) → Since o o
Since-refl none = tt
Since-refl (some r) = record {
  reaches = here;
  same_id = refl;
  same_operation = refl;
  same_target = refl;
  same_risk = refl;
}

abbrev SameBinding : {X : Type 0} → Slot X → Slot X → Type 0
SameBinding s = Continues s.rec s.around.entries (λ w. Unit)

Since-moved :
    {X : Type 0} (before : Option ResponseRecommendation) (s s' : Slot X)
    → MovedFrom s s'
    → SameBinding s s'
    → Since before (some s.rec)
    → Since before (some s'.rec)
Since-moved none s s' m c h = moved_on h m
Since-moved (some b) s s' m c h = record {
  reaches = moved_on h.reaches m;
  same_id = c.same_id ∙ h.same_id;
  same_operation = c.same_operation ∙ h.same_operation;
  same_target = c.same_target ∙ h.same_target;
  same_risk = c.same_risk ∙ h.same_risk;
}

module _ {X : Type 0} (env : Environment X) (e : Engine X) where
  slot-SoundSince :
      {A : Type 0} (m : SlotExec X A)
      → ((s : Slot X) → IsInPhase s → After m s IsInPhase)
      → ((s : Slot X) → IsInPhase s → After m s (MovedFrom s))
      → ((s : Slot X) → Keeps (SameBinding s) m)
      → KeepsEntry (SoundSince e) m
  slot-SoundSince m phase moves same id s h = record {
    sound = (phase s h.sound).holds;
    since =
        Since-moved (Dict.get e.recs id) s (m s).1 (moves s h.sound).holds
          ((same s).at s (Continues-refl s tt)) h.since;
  }

  step-SoundSince :
      (c : Call) (e' : Engine X) → Every (SoundSince e) e' → Every (SoundSince e) (step env c e')
  step-SoundSince =
      step-Every (SoundSince e) env
        (λ r s p h. record {
          sound = new_session-InPhase r p;
          since = Since-entered (Dict.get e.recs r.id) r p h.since;
        })
        (record {
          decides = λ actor.
              slot-SoundSince _ (decide_slot-InPhase env actor)
                (λ s h. decide_slot-moves env actor s) (λ s. Continues-decide_slot env actor);
          approves = λ approver reason ttl t.
              slot-SoundSince _ (approve_slot-InPhase env approver reason ttl t)
                (λ s h. approve_slot-moves env approver reason ttl t s)
                (λ s. Continues-approve_slot env approver reason ttl t);
          executes = λ t.
              slot-SoundSince _ (execute_slot-InPhase env t) (λ s h. execute_slot-moves env t s)
                (λ s. Continues-execute_slot env (λ req w k. tt) t);
          verifies = λ t.
              slot-SoundSince _ (verify_slot-InPhase env t) (verify_slot-moves env t)
                (λ s. Continues-verify_slot env t);
        })

  run-SoundSince :
      (calls : List Call) (e' : Engine X)
      → Every (SoundSince e) e'
      → Every (SoundSince e) (run env calls e')
  unfolding run
  run-SoundSince [] e' h = h
  run-SoundSince (c ∷ calls) e' h = run-SoundSince calls (step env c e') (step-SoundSince c e' h)

Since-found :
    (before after : Option ResponseRecommendation) {r : ResponseRecommendation}
    → Since before after
    → before ≡ some r
    → (r' : ResponseRecommendation) × (after ≡ some r') × Follows r r'
Since-found before none h e = absurd (rw e at h)
Since-found before (some r') h e = (r', refl, rw e at h)

module _ {X : Type 0} (env : Environment X) (earlier later : List Call) (x : X) (id : String) where
  -- Whatever is called: a recommendation that is stored stays stored, with the same id, operation,
  -- target and risk, and its status moves along the transitions only.
  pub run-Follows :
      (r : ResponseRecommendation)
      → get (run env earlier (new_engine x)) id ≡ some r
      → (r' : ResponseRecommendation) × (get (run env later (run env earlier (new_engine x))) id
          ≡ some r')
        × Follows r r'
  unfolding get
  run-Follows r found =
      let e = run env earlier (new_engine x) in
      let start : Every (SoundSince e) e = record {
        entry = λ j. record {
          sound = (run-IsSound env earlier x).entry j;
          since = Since-refl (Dict.get e.recs j);
        };
      } in
      Since-found _ _ ((run-SoundSince env e later e start).entry id).since found

-- The statuses that nothing leads out of.
abbrev pub is_final : ResponseStatus → Bool
is_final ResponseStatus.denied = true
is_final ResponseStatus.executing = true
is_final ResponseStatus.verified = true
is_final ResponseStatus.verification_failed = true
is_final ResponseStatus.verification_unknown = true
is_final _ = false

no_way_out : {a b : ResponseStatus} → Transition a b → is_final a ≡ true → ⊥
no_way_out parks f = cc f
no_way_out _ f = cc f

final_stays : {a b : ResponseStatus} → Reaches a b → is_final a ≡ true → b ≡ a
final_stays here f = refl
final_stays (onward r t) f = absurd (no_way_out t (rw (← final_stays r f) at f))

module _ {X : Type 0} (env : Environment X) (earlier later : List Call) (x : X) (id : String) where
  -- A recommendation that was denied, whose executor failed to report, or that was verified with
  -- whatever verdict, keeps that status whatever is called after that.
  pub final_forever :
      (r : ResponseRecommendation)
      → get (run env earlier (new_engine x)) id ≡ some r
      → is_final r.status ≡ true
      → (r' : ResponseRecommendation) × (get (run env later (run env earlier (new_engine x))) id
          ≡ some r')
        × (r'.status ≡ r.status)
  final_forever r found final =
      let (r', found', f) = run-Follows env earlier later x id r found in
      (r', found', final_stays f.reaches final)
