-- ===== src/Validation/Runner/Traced.antt =====
-- Every step of a run keeps what the executor has recorded an answer of the provider.
use blueveil.Prelude.{
  ◌≡◌, refl, sym, ◌∙◌, subst, Bool, true, false, String, Option, some, if◌then◌else◌, ◌+◌,
}
use blueveil.Prelude.Int.{pos}
use blueveil.Prelude.Time.{Time}
use blueveil.Prelude.Result.{Result, ok, err}
use blueveil.Prelude.Exec.Keeps.{Keeps, Keeps-pure, Keeps-bind}
use blueveil.Contract.Messages.{Evidence}
use blueveil.Contract.Validation.{ValidationRequest, ValidationResult}
use blueveil.Response.Executor.{ExecRequest}
use blueveil.Response.Recommend.{Inputs}
use blueveil.Response.Engine.State.{Engine}
use blueveil.Response.Engine.Methods
use blueveil.Response.Engine.Methods.{EngineExec}
use blueveil.Response.Engine.Runs.{Call, recommend, decide, approve, verify, step}
use blueveil.Response.Engine.Use.{Use, unused, used, step-Use}
use blueveil.Validation.Error.{ValidationError, refused}
use blueveil.Validation.Executor as Executor
use blueveil.Validation.Executor.{Bound, Trace, Bench, ask, keep, record_answer, new_executor}
use blueveil.Validation.Executor.Recorded.{IsAnswered, ask-IsAnswered}
use blueveil.Validation.Runner.{Harness, gated, from_engine, approve_pending}

-- Where both are there, the recorded result is the provider's answer to the recorded request.
pub record IsTraced (b : Bound) (w : Trace) : Type 0 where
  pub answer :
      (req : ValidationRequest) (res : ValidationResult)
      → w.last_request ≡ some req
      → w.last_result ≡ some res
      → IsAnswered b req res

some_injective : {A : Type 0} {a b : A} → (◌≡◌ {A = Option A} (some a) (some b)) → a ≡ b
some_injective h = cc h

recorded-IsTraced :
    (b : Bound) (req : ValidationRequest) (res : ValidationResult) (w : Trace)
    → IsAnswered b req res
    → w.last_request ≡ some req
    → w.last_result ≡ some res
    → IsTraced b w
recorded-IsTraced b req res w a lq lr = record {
  answer = λ q r eq er. rw (some_injective (sym eq ∙ lq), some_injective (sym er ∙ lr)) a;
}

module _ (bench : Bench) (b : Bound) where
  keep-IsTraced :
      (req : ValidationRequest) (res : ValidationResult) (w : Trace)
      → IsTraced b w
      → (note : Result ValidationError Evidence) → IsTraced b (keep bench req res note w).1
  unfolding keep
  keep-IsTraced req res w t (err e) = t
  keep-IsTraced req res w t (ok item) = record { answer = t.answer }

  record_answer-IsTraced :
      (now : Time) (w : Trace)
      → IsTraced b w
      → (answer : Result ValidationError (ValidationRequest × ValidationResult))
      → ask bench b now ≡ answer
      → IsTraced b (record_answer bench b now answer w).1
  unfolding record_answer
  record_answer-IsTraced now w t (err e) h = t
  record_answer-IsTraced now w t (ok (req, res)) h =
      let w' : Trace = record w { last_request = some req; last_result = some res } in
      keep-IsTraced req res w'
        (recorded-IsTraced b req res w' (ask-IsAnswered bench b now req res h) refl refl) _

  by_target-IsTraced :
      (stray : Bool) (w : Trace)
      → IsTraced b w
      → IsTraced b
          (if stray
            then (err refused, w)
            else record_answer bench b
                (bench.clock w.ticks)
                (ask bench b (bench.clock w.ticks))
                (record w { ticks = w.ticks + 1 })).1
  by_target-IsTraced true w t = t
  by_target-IsTraced false w t =
      record_answer-IsTraced (bench.clock w.ticks) (record w { ticks = w.ticks + 1 })
        (record { answer = t.answer }) _ refl

  execute-IsTraced :
      (req : ExecRequest) (w : Trace) → IsTraced b w → IsTraced b (Executor.execute bench b req w).1
  unfolding Executor.execute
  execute-IsTraced req w t = by_target-IsTraced _ w t

-- The state of a run whose executor is bound to `b`.
abbrev pub Good : Bound → Engine Trace → Type 0
Good b e = IsTraced b e.ambient.world

module _ (h : Harness) (b : Bound) where
  used-Good : (t0 : Time) (e e' : Engine Trace) → Use (gated h b) t0 e e' → Good b e → Good b e'
  used-Good t0 e e' (unused same) t = subst (IsTraced b) (sym same) t
  used-Good t0 e e' (used id r s a f g ap1 au sp same) t =
      subst (IsTraced b) (sym same) (execute-IsTraced h.bench b _ e.ambient.world t)

  pub step-Good : (c : Call) (e : Engine Trace) → Good b e → Good b (step (gated h b) c e)
  step-Good c e t = used-Good _ e _ (step-Use (gated h b) c e).0 t

  pub recommend-Good : (i : Inputs) → Keeps (Good b) (from_engine (Methods.recommend (gated h b) i))
  unfolding from_engine step
  recommend-Good i = record { at = step-Good (recommend i) }

  pub decide-Good :
      (id actor : String) → Keeps (Good b) (from_engine (Methods.decide (gated h b) id actor))
  unfolding from_engine step
  decide-Good id actor = record { at = step-Good (decide id actor) }

  pub verify-Good : (id : String) → Keeps (Good b) (from_engine (Methods.verify (gated h b) id))
  unfolding from_engine step
  verify-Good id = record { at = step-Good (verify id) }

  approve-Good :
      (id actor reason : String)
      → Keeps
          (Good b)
          (from_engine (Methods.approve (gated h b) id actor reason (pos 3600000000000)))
  unfolding from_engine step
  approve-Good id actor reason = record {
    at = step-Good (approve id actor reason (pos 3600000000000));
  }

  pub approve_pending-Good :
      (pending : Bool) (id actor reason : String)
      → Keeps (Good b) (approve_pending h b pending id actor reason)
  unfolding approve_pending
  approve_pending-Good true id actor reason =
      Keeps-bind _ _ (approve-Good id actor reason) λ a. Keeps-pure tt
  approve_pending-Good false id actor reason = Keeps-pure tt
