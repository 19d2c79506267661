-- ===== src/Response/Engine/Once.antt =====
-- How often the executor is called for a recommendation.
use blueveil.Prelude.{
  ℕ, ◌+◌, ◌≤◌, ◌≡◌, refl, inl, inr, Bool-cases, Bool, true, false, String, Option, some, List, [],
  ◌∷◌, arith, ◌==◌, eq_iff, if◌then◌else◌,
}
use blueveil.Prelude.Dict
use blueveil.Prelude.Dict.{dict_laws}
use blueveil.Contract.Enums.{ResponseStatus}
use blueveil.Contract.Messages.{ResponseRecommendation}
use blueveil.Response.Executor.{ExecRequest}
use blueveil.Response.Engine.State.{Session, Environment, Engine, new_engine}
use blueveil.Response.Engine.Slots.{is_approved}
use blueveil.Response.Engine.Methods.{get}
use blueveil.Response.Engine.Runs.{Call, step, run, is_past_gate}
use blueveil.Response.Engine.Entries.{Every}
use blueveil.Response.Engine.Use.{
  IsKeyed, stored_spent, step-IsKeyed, step-stays_spent, Use, unused, used, step-Use,
}

-- The environment with an executor that writes down each request before it does what it does.
abbrev pub recording : {X : Type 0} → Environment X → Environment (List ExecRequest × X)
recording env = record {
  library = env.library;
  clock = env.clock;
  decide = env.decide;
  execute = λ req w. let (r, x) = env.execute req w.1 in (r, (req ∷ w.0, x));
  verify = env.verify;
}

-- The requests for a recommendation.
abbrev pub count_for : String → List ExecRequest → ℕ
count_for id [] = 0
count_for id (req ∷ reqs) =
    let rest = count_for id reqs in if req.recommendation_id == id then rest + 1 else rest

abbrev pub left_over : Bool → ℕ
left_over true = 0
left_over false = 1

-- The executions for an id so far, with the one that may still come, are at most one.
record IsOnce {X : Type 0} (e : Engine (List ExecRequest × X)) : Type 0 where
  keyed : Every IsKeyed e
  budget :
      (id : String)
      → count_for id e.ambient.world.0 + left_over (stored_spent (Dict.get e.recs id)) ≤ 1

stays_left :
    (before after : Bool) → (before ≡ true → after ≡ true) → left_over after ≤ left_over before
stays_left true after h = rw (h refl) (ground arith)
stays_left false true h = ground arith
stays_left false false h = ground arith

approved_unspent :
    (status : ResponseStatus) → is_approved status ≡ true → is_past_gate status ≡ false
approved_unspent status h = ground arith

at_key :
    (id : String) (o : Option ResponseRecommendation) (s : Option Session)
    {r : ResponseRecommendation}
    → o ≡ some r
    → IsKeyed id o s
    → r.id ≡ id
at_key id o s e h = rw e at h

module _ {X : Type 0} (env : Environment X) where
  budget_after :
      (c : Call) (e : Engine (List ExecRequest × X))
      → IsOnce e
      → Use (recording env) (env.clock e.ambient.ticks) e (step (recording env) c e)
      → (id : String)
      → let e' = step (recording env) c e in
        count_for id e'.ambient.world.0 + left_over (stored_spent (Dict.get e'.recs id)) ≤ 1
  budget_after c e h (unused w) id =
      let left = stays_left _ _ (step-stays_spent (recording env) c e id) in
      let before = h.budget id in rw w (omega arith)
  budget_after c e h (used id' r s a f g approved granted spent ran) id =
      let left = stays_left _ _ (step-stays_spent (recording env) c e id) in
      let before = h.budget id in
      let key = at_key id' _ _ f (h.keyed.entry id') in
      elim (Bool-cases (id' == id)) [
        | inl p ↦
            let same = (eq_iff id' id).0 p in
            rw (ran, key, p)
              (let spent' = rw same at spent in
                let unspent = rw (rw same at f, approved_unspent r.status approved) at before in
                rw spent' (omega arith))
        | inr p ↦ rw (ran, key, p) (omega arith)
      ]

  step-IsOnce :
      (c : Call) (e : Engine (List ExecRequest × X)) → IsOnce e → IsOnce (step (recording env) c e)
  step-IsOnce c e h = record {
    keyed = step-IsKeyed (recording env) c e h.keyed;
    budget = budget_after c e h (step-Use (recording env) c e).0;
  }

  run_from-IsOnce :
      (calls : List Call) (e : Engine (List ExecRequest × X))
      → IsOnce e
      → IsOnce (run (recording env) calls e)
  unfolding run
  run_from-IsOnce [] e h = h
  run_from-IsOnce (c ∷ calls) e h = run_from-IsOnce calls _ (step-IsOnce c e h)

  -- Whatever is called on a new engine, with whatever policy, executor and verifier: of all the
  -- requests that the executor gets, at most one is for the recommendation with a given id, and
  -- none while the status of that recommendation is not past the gate, so that one may still come.
  pub executed_once :
      (calls : List Call) (x : X) (id : String)
      → count_for id (run (recording env) calls (new_engine ([], x))).ambient.world.0
          + left_over (stored_spent (get (run (recording env) calls (new_engine ([], x))) id))
        ≤ 1
  unfolding get
  executed_once calls x id =
      let new : IsOnce (new_engine ([], x)) = record {
        keyed = record { entry = λ id. simp dict_laws tt };
        budget = λ id. simp dict_laws (omega arith);
      } in
      (run_from-IsOnce calls (new_engine ([], x)) new).budget id
