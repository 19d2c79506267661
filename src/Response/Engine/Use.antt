-- ===== src/Response/Engine/Use.antt =====
-- When the executor is called, and with what.
use blueveil.Contract.Equality.{same}
use blueveil.Prelude.{
  ◌≡◌, refl, sym, subst, Bool-cases, inl, inr, ◌∙◌, Bool, true, false, ◌&&◌, String, Option, none,
  some, arith,
}
use blueveil.Prelude.Time.{Time, is_zero}
use blueveil.Prelude.Dict
use blueveil.Prelude.Dict.{dict_laws, get-put_same}
use blueveil.Prelude.Result.{ok, ok_injective}
use blueveil.Prelude.Exec.{returned}
use blueveil.Prelude.Exec.After.{After, after_bind, after_gets, after_require}
use blueveil.Contract.Enums.{ResponseStatus}
use blueveil.Contract.Messages.{ResponseRecommendation, ResponseApproval}
use blueveil.Response.Approval.{Duration, approval_id, covers}
use blueveil.Response.Approval.Binding.{Binds, IsUnexpired, covers_iff}
use blueveil.Response.Safety.{Gate, required_gate}
use blueveil.Response.Engine.State.{Session, Environment, Ambient, Engine, Slot, now}
use blueveil.Response.Engine.Slots.{
  is_approved, is_proposed, is_pending, authorize, request_for, decide_slot, approve_slot,
  execute_slot,
}
use blueveil.Response.Engine.Frame.{
  Continues-refl, now_frame, Continues-decide_slot, Continues-approve_slot, Continues-execute_slot,
  Continues-verify_slot,
}
use blueveil.Response.Engine.Methods
use blueveil.Response.Engine.Methods.{get, within, EngineExec, approval, live, on_found, on_open}
use blueveil.Response.Engine.Runs.{
  Call, recommend, decide, approve, execute, verify, step, is_past_gate,
}
use blueveil.Response.Audit.Log.{unchanged}
use blueveil.Prelude.Exec.Keeps.{Keeps}
use blueveil.Response.Engine.History.{
  Grown, recommend-Grown, decide-Grown, approve-Grown, verify-Grown,
}
use blueveil.Response.Engine.Spent.{
  Spent-verify_slot, ExecutorUse, uncalled, called, execute_slot-use,
}
use blueveil.Response.Engine.Entries.{Every, step-Every}

-- The key of a stored recommendation is its id.
abbrev pub IsKeyed : String → Option ResponseRecommendation → Option Session → Type 0
IsKeyed id none s = Unit
IsKeyed id (some r) s = r.id ≡ id

abbrev pub stored_spent : Option ResponseRecommendation → Bool
stored_spent none = false
stored_spent (some r) = is_past_gate r.status

-- What was past the gate in `e` is past it now.
abbrev StaysSpent :
    {X : Type 0} → Engine X → String → Option ResponseRecommendation → Option Session → Type 0
StaysSpent e id now s = stored_spent (Dict.get e.recs id) ≡ true → stored_spent now ≡ true

proposed_unspent :
    (status : ResponseStatus) (b : Bool)
    → (is_proposed status && b) ≡ true
    → is_past_gate status ≡ true
    → ⊥
proposed_unspent status b h p = ground arith

pending_unspent :
    (status : ResponseStatus) (b : Bool)
    → (is_pending status && b) ≡ true
    → is_past_gate status ≡ true
    → ⊥
pending_unspent status b h p = ground arith

module _ {X : Type 0} (env : Environment X) where
  pub step-IsKeyed : (c : Call) (e : Engine X) → Every IsKeyed e → Every IsKeyed (step env c e)
  step-IsKeyed =
      step-Every IsKeyed env (λ r s p h. refl)
        (record {
          decides = λ actor id s h.
              ((Continues-decide_slot env actor).at s (Continues-refl {W = λ w. Unit} s tt)).same_id
              ∙ h;
          approves = λ approver reason ttl t id s h.
              ((Continues-approve_slot env approver reason ttl t).at s
                (Continues-refl {W = λ w. Unit} s tt)).same_id
              ∙ h;
          executes = λ t id s h.
              ((Continues-execute_slot env (λ req w k. tt) t).at s
                (Continues-refl {W = λ w. Unit} s tt)).same_id
              ∙ h;
          verifies = λ t id s h.
              ((Continues-verify_slot env t).at s (Continues-refl {W = λ w. Unit} s tt)).same_id
              ∙ h;
        })

  decide_slot-spent :
      (actor : String) (s : Slot X)
      → is_past_gate s.rec.status ≡ true
      → After (decide_slot env actor) s (λ s'. is_past_gate s'.rec.status ≡ true)
  unfolding decide_slot
  decide_slot-spent actor s p =
      after_gets _ _ s
        (after_require _ _ _ s p λ guard. absurd (proposed_unspent s.rec.status _ guard p))

  approve_slot-spent :
      (approver reason : String) (ttl : Duration) (t : Time) (s : Slot X)
      → is_past_gate s.rec.status ≡ true
      → After (approve_slot env approver reason ttl t) s (λ s'. is_past_gate s'.rec.status ≡ true)
  unfolding approve_slot
  approve_slot-spent approver reason ttl t s p =
      after_gets _ _ s
        (after_require _ _ _ s p λ guard. absurd (pending_unspent s.rec.status _ guard p))

  use-spent :
      (t : Time) (s s' : Slot X)
      → ExecutorUse env t s s'
      → is_past_gate s.rec.status ≡ true
      → is_past_gate s'.rec.status ≡ true
  use-spent t s s' (uncalled same w) p = rw same p
  use-spent t s s' (called a approved granted spent w) p = spent

  -- No call takes a recommendation back before the gate.
  pub step-stays_spent :
      (c : Call) (e : Engine X) (id : String)
      → stored_spent (Dict.get e.recs id) ≡ true
      → stored_spent (Dict.get (step env c e).recs id) ≡ true
  step-stays_spent c e id =
      (step-Every (StaysSpent e) env (λ r s _ h p. cc (h p))
          (record {
            decides = λ actor id s h p. (decide_slot-spent actor s (h p)).holds;
            approves = λ approver reason ttl t id s h p.
                (approve_slot-spent approver reason ttl t s (h p)).holds;
            executes = λ t id s h p. use-spent t s _ (execute_slot-use env t s).holds (h p);
            verifies = λ t id s h p.
                ((Spent-verify_slot env t).at s
                  (record { status_spent = h p; same_world = refl })).status_spent;
          })
          c e (record { entry = λ id h. h })).entry
        id

-- The execution is authorized at a time: by policy where the gate asks for nobody, and else by an approval of
-- this recommendation, its operation, target and risk, that has not expired at that time.
pub data IsAuthorized (r : ResponseRecommendation) (s : Session) (t : Time) : String → Type 0 where
  by_policy :
      required_gate r.operation r.risk s.approval_required ≡ Gate.automatic → IsAuthorized r s t ""
  by_human :
      (a : ResponseApproval)
      → s.approval ≡ some a
      → Binds a r
      → IsUnexpired a.expires_at t
      → IsAuthorized r s t a.id

authorize-IsAuthorized :
    (r : ResponseRecommendation) (s : Session) (t : Time) (gate : Gate)
    (o : Option ResponseApproval) (id : String)
    → required_gate r.operation r.risk s.approval_required ≡ gate
    → s.approval ≡ o
    → authorize gate o r t ≡ ok id
    → IsAuthorized r s t id
unfolding authorize
authorize-IsAuthorized r s t Gate.automatic o id g f h = rw (← ok_injective h) (by_policy g)
authorize-IsAuthorized r s t Gate.approved none id g f h = absurd (cc h)
authorize-IsAuthorized r s t Gate.approved (some a) id g f h =
    elim (Bool-cases (covers (some a) (some r) t)) [
      | inl p ↦
          let (b, e) = (covers_iff a r t).0 p in rw (← ok_injective (rw p at h)) (by_human a f b e)
      | inr p ↦ absurd (cc (rw p at h))
    ]

-- How the executor takes part in a step: not at all, or once, with the request of an approved
-- recommendation, authorized at the time that the step reads from the clock.
pub data Use {X : Type 0} (env : Environment X) (t : Time) (e e' : Engine X) : Type 0 where
  unused : e'.ambient.world ≡ e.ambient.world → Use env t e e'
  used :
      (id : String) (r : ResponseRecommendation) (s : Session) (approval_id : String)
      → Dict.get e.recs id ≡ some r
      → Dict.get e.sessions id ≡ some s
      → is_approved r.status ≡ true
      → IsAuthorized r s t approval_id
      → stored_spent (Dict.get e'.recs id) ≡ true
      → e'.ambient.world ≡ (env.execute (request_for r approval_id) e.ambient.world).1
      → Use env t e e'

-- Every call but Execute leaves the executor alone.
abbrev pub Leaves : {X : Type 0} → Call → Engine X → Engine X → Type 0
Leaves (execute id) e e' = Unit
Leaves _ e e' = e'.ambient.world ≡ e.ambient.world

module _ {X : Type 0} (env : Environment X) where
  apart :
      {A : Type 0} (m : Methods.EngineExec X A) (t : Time) (e : Engine X)
      → Keeps (Grown e.ambient.entries (λ w. w ≡ e.ambient.world)) m
      → Use env t e (m e).1 × ((m e).1.ambient.world ≡ e.ambient.world)
  apart m t e k =
      let same = (k.at e (record { grown = unchanged; world_kept = refl })).world_kept in
      (unused same, same)

  on_open-Use :
      (done : Bool) (id : String) (t : Time) (e : Engine X) (r : ResponseRecommendation)
      (s : Session)
      → Dict.get e.recs id ≡ some r
      → Dict.get e.sessions id ≡ some s
      → Use env t e (Methods.on_open done id (execute_slot env t) r s e).1
  unfolding Methods.on_open
  on_open-Use true id t e r s f g = unused refl
  on_open-Use false id t e r s f g =
      let slot : Slot X = record { rec = r; session = s; around = e.ambient } in
      elim (execute_slot-use env t slot).holds [
        | uncalled same w ↦ unused w
        | called approval_id approved granted spent w ↦
            used id r s approval_id f g approved
              (authorize-IsAuthorized r s t _ s.approval approval_id refl refl granted)
              (rw (Dict.get-put_same e.recs id _) spent) w
      ]

  on_found-Use :
      (id : String) (t : Time) (e : Engine X) (r : Option ResponseRecommendation)
      (s : Option Session)
      → Dict.get e.recs id ≡ r
      → Dict.get e.sessions id ≡ s
      → Use env t e (Methods.on_found id (execute_slot env t) r s e).1
  unfolding Methods.on_found
  on_found-Use id t e none s f g = unused refl
  on_found-Use id t e (some r) none f g = unused refl
  on_found-Use id t e (some r) (some s) f g = on_open-Use s.done id t e r s f g

  around-Use :
      (t : Time) (e : Engine X) (a : Ambient X) (e' : Engine X)
      → a.world ≡ e.ambient.world
      → Use env t (record e { ambient = a }) e'
      → Use env t e e'
  around-Use t e a e' w (unused same) = unused (same ∙ w)
  around-Use t e a e' w (used id r s approval_id f g approved granted spent ran) =
      used id r s approval_id f g approved granted spent (rw w at ran)

  -- What now() returns is the reading of the clock.
  now-reads :
      (e : Engine X) (t : Time)
      → (within (now env) e).0 ≡ returned t
      → env.clock e.ambient.ticks ≡ t
  unfolding now
  now-reads e t h = elim (Bool-cases (is_zero (env.clock e.ambient.ticks))) [
    | inl p ↦ absurd (cc (rw p at h))
    | inr p ↦ cc (rw p at h)
  ]

  execute-Use :
      (id : String) (e : Engine X)
      → After (Methods.execute env id) e (Use env (env.clock e.ambient.ticks) e)
  unfolding Methods.execute Methods.live
  execute-Use id e =
      let w = (now_frame env e.ambient).1 in
      after_bind _ _ e (unused w) λ t h. record {
        holds = around-Use _ e _ _ w (
            subst
              (λ u.
                Use env u (record e { ambient = (now env e.ambient).1 })
                  (Methods.on_found id (execute_slot env t) (Dict.get e.recs id)
                    (Dict.get e.sessions id) (record e { ambient = (now env e.ambient).1 })).1)
              (sym (now-reads e t h)) (on_found-Use id t _ _ _ refl refl));
      }

  pub step-Use :
      (c : Call) (e : Engine X)
      → Use env (env.clock e.ambient.ticks) e (step env c e) × Leaves c e (step env c e)
  unfolding step
  step-Use (recommend i) e = apart _ _ e (recommend-Grown env i)
  step-Use (decide id actor) e = apart _ _ e (decide-Grown env id actor)
  step-Use (approve id approver reason ttl) e =
      apart _ _ e (approve-Grown env id approver reason ttl)
  step-Use (execute id) e = ((execute-Use id e).holds, tt)
  step-Use (verify id) e = apart _ _ e (verify-Grown env id)
