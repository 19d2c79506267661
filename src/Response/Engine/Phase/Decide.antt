-- ===== src/Response/Engine/Phase/Decide.antt =====
-- Decide and Approve keep the phase.
use blueveil.Prelude.{◌≡◌, refl, true, false, ◌&&◌, String, none, arith}
use blueveil.Prelude.Time.{Time}
use blueveil.Contract.Enums.{ResponseStatus}
use blueveil.Contract.Messages.{ResponseRecommendation, ResponseApproval}
use blueveil.Prelude.Library.{Library}
use blueveil.Response.Safety.{SafetyState, Gate, next_state, step_on, advance, required_gate}
use blueveil.Response.Approval.{Duration, grant, approval_of}
use blueveil.Prelude.Result.{ok}
use blueveil.Prelude.Exec.{◌>>=◌}
use blueveil.Prelude.Exec.After.{After, after_lift, after_gets, after_modify, after_require}
use blueveil.Response.Policy.{Decision}
use blueveil.Response.Approval.Binding.{Binds}
use blueveil.Response.Engine.State.{Session, Environment, Slot}
use blueveil.Response.Engine.Slots.{
  is_proposed, is_pending, at_recommend, at_confirm, accept, log, park, allow_through, settle,
  decide_slot, approve_slot,
}
use blueveil.Response.Engine.Phase.{Unexecuted, InPhase, IsInPhase}

-- A session that has reached CONFIRM with nothing decided.
record Undecided (s : Session) : Type 0 where
  confirming : s.safety ≡ SafetyState.confirm
  pub fresh : Unexecuted s
  pub still_open : s.done ≡ false
  unapproved : s.approval ≡ none

begin_decide :
    (r : ResponseRecommendation) (s : Session) {safety : SafetyState}
    → InPhase r s
    → (is_proposed r.status && at_recommend s.safety) ≡ true
    → advance s.safety Gate.automatic ≡ ok safety
    → (r.status ≡ ResponseStatus.proposed) × Undecided (record s { safety = safety })
unfolding advance next_state step_on
begin_decide r s h g e = ground arith

module _ {X : Type 0} (env : Environment X) (actor : String) where
  park-InPhase :
      (reason : String) (s : Slot X) → Undecided s.session → IsInPhase (park env actor reason s).1
  unfolding park log ◌>>=◌
  park-InPhase reason s u = ground arith

  allow_through-InPhase :
      (gate : Gate) (s : Slot X)
      → Undecided s.session
      → required_gate s.rec.operation s.rec.risk false ≡ gate
      → IsInPhase (allow_through env gate actor s).1
  unfolding allow_through log ◌>>=◌
  allow_through-InPhase Gate.automatic s u g = ground arith
  allow_through-InPhase Gate.approved s u g = park-InPhase _ s u

  settle-InPhase :
      (decision : Decision) (s : Slot X)
      → (s.rec.status ≡ ResponseStatus.proposed) × Undecided s.session
      → IsInPhase (settle env decision actor s).1
  unfolding settle log ◌>>=◌
  settle-InPhase Decision.allow s u =
      allow_through-InPhase (required_gate s.rec.operation s.rec.risk false) s u.1 refl
  settle-InPhase Decision.deny s u = ground arith
  settle-InPhase Decision.require_approval s u = park-InPhase _ s u.1
  settle-InPhase (Decision.other n) s u = ground arith

  pub decide_slot-InPhase : (s : Slot X) → IsInPhase s → After (decide_slot env actor) s IsInPhase
  unfolding decide_slot
  decide_slot-InPhase s h = after_gets _ _ s (
      after_require _ _ _ s h λ guard. after_lift _ _ s h λ decision _.
        after_lift _ _ s h λ safety moved. after_modify _ _ s (record {
          holds =
              settle-InPhase decision (record s { session = record s.session { safety = safety } })
                (begin_decide s.rec s.session h guard moved);
        }))

-- What Grant returns is bound to the recommendation that it is given.
grant-Binds :
    (lib : Library) (r : ResponseRecommendation) (approver reason : String) (t : Time)
    (ttl : Duration) {a : ResponseApproval}
    → grant lib r approver reason t ttl ≡ ok a
    → Binds a r
unfolding grant approval_of
grant-Binds lib r approver reason t ttl h = ground arith

module _ {X : Type 0} (env : Environment X) where
  accept-InPhase :
      (approver reason : String) (a : ResponseApproval) (s : Slot X)
      → InPhase s.rec s.session
      → (is_pending s.rec.status && at_confirm s.session.safety) ≡ true
      → Binds a s.rec
      → IsInPhase (accept env approver reason a s).1
  unfolding accept log ◌>>=◌
  accept-InPhase approver reason a s h g b = ground arith

  pub approve_slot-InPhase :
      (approver reason : String) (ttl : Duration) (t : Time) (s : Slot X)
      → IsInPhase s
      → After (approve_slot env approver reason ttl t) s IsInPhase
  unfolding approve_slot
  approve_slot-InPhase approver reason ttl t s h = after_gets _ _ s (
      after_require _ _ _ s h λ guard. after_lift _ _ s h λ appr granted. record {
        holds =
            accept-InPhase approver reason appr s h guard
              (grant-Binds env.library s.rec approver reason t ttl granted);
      })
