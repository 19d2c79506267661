-- ===== src/Validation/Executor/Recorded.antt =====
-- What Execute has done when it reports, and when it fails.
use blueveil.Prelude.{
  ◌≡◌, refl, ap, ◌∙◌, Bool, true, false, not, ◌||◌, String, Option, none, some, map, ◌==◌, eq_iff,
}
use blueveil.Prelude.Time.{Time, is_zero}
use blueveil.Prelude.Result.{
  Result, ok, err, ensure, ensure_passed, ensure_none_passed, bind_passed, ok_injective,
}
use blueveil.Contract.Check.{ContractError}
use blueveil.Contract.Messages.{Evidence}
use blueveil.Contract.Validation.{
  ValidationVerdict, ValidationRequest, ValidationResult, validate_result,
}
use blueveil.Response.Executor.{ExecRequest, ExecResult}
use blueveil.Validation.Error.{ValidationError, provider_output, refused}
use blueveil.Validation.Provider.{check_result, check_identity}
use blueveil.Validation.Request.{build_for}
use blueveil.Validation.Request.Named.{IsNamed, build_for-IsNamed}
use blueveil.Validation.Executor.Noted.{IsNote, Gains}
use blueveil.Validation.Executor.{Bound, Trace, Bench, ask, answered, given}

abbrev was_tested : ValidationVerdict → Bool
was_tested ValidationVerdict.not_tested = false
was_tested _ = true

-- A request of BuildRequest, and the provider's own answer to it.
pub record IsAnswered (b : Bound) (req : ValidationRequest) (res : ValidationResult) : Type 0 where
  pub request_named : IsNamed b.incident b.alert b.detection (map (λ e. some e) b.events) req
  pub provider_asked : b.provider.validate req ≡ ok (some res)
  pub result_valid : validate_result (some res) ≡ none
  pub same_request : res.request_id ≡ req.id
  pub same_control : res.control_id ≡ req.control_id

answered_ok :
    (o : Result ValidationError (Option ValidationResult)) (a : Option ValidationResult)
    → answered o ≡ ok a
    → o ≡ ok a
answered_ok (ok a') a h = h
answered_ok (err e) a h = absurd (cc h)

given_holds :
    (a : Option ValidationResult) (res : ValidationResult) → given a ≡ ok res → a ≡ some res
given_holds none res h = absurd (cc h)
given_holds (some res') res h = ap (λ r. some r) (ok_injective h)

ensure_holds : (t : Bool) → ensure t provider_output ≡ ok tt → t ≡ true
ensure_holds true h = refl
ensure_holds false h = absurd (cc h)

pair_injective :
    {A B : Type 0} {a c : A} {b d : B} → (◌≡◌ {A = A × B} (a, b) (c, d)) → (a ≡ c) × (b ≡ d)
pair_injective h = (ap (λ p. p.0) h, ap (λ p. p.1) h)

module _ (bench : Bench) where
  pub ask-IsAnswered :
      (b : Bound) (now : Time) (req : ValidationRequest) (res : ValidationResult)
      → ask bench b now ≡ ok (req, res)
      → IsAnswered b req res
  unfolding ask check_result check_identity
  ask-IsAnswered b now req res h0 =
      let (_, h1) = ensure_passed (not (is_zero now)) refused _ (req, res) h0 in
      let (q, named, h2) =
        bind_passed (build_for bench.library b.incident b.alert b.detection _ now) _ (req, res)
          h1 in
      let (a, asked, h3) = bind_passed (answered (b.provider.validate q)) _ (req, res) h2 in
      let (valid, h4) =
        ensure_none_passed (λ (_ : ContractError). provider_output) (validate_result a) _ (req, res)
          h3 in
      let (r, is_given, h5) = bind_passed (given a) _ (req, res) h4 in
      let (_, identity, h6) = bind_passed (check_identity q r) _ (req, res) h5 in
      let (one, h7) = ensure_passed (r.request_id == q.id) provider_output _ tt identity in
      let two = ensure_holds (r.control_id == q.control_id) h7 in
      let (same_q, same_r) = pair_injective (ok_injective h6) in
      let answer = given_holds a r is_given in
      rw (← same_q, ← same_r)
        (record {
          request_named =
              build_for-IsNamed bench.library b.incident b.alert b.detection _ now q named;
          provider_asked = answered_ok (b.provider.validate q) a asked ∙ ap (λ o. ok o) answer;
          result_valid = rw answer at valid;
          same_request = (eq_iff r.request_id q.id).0 one;
          same_control = (eq_iff r.control_id q.control_id).0 two;
        })

  -- A report stands on a recorded answer, and its evidence goes into the store.
  pub record IsRecorded (b : Bound) (target : String) (report : ExecResult) (w w' : Trace)
      : Type 0 where
    pub request : ValidationRequest
    pub result : ValidationResult
    pub answer : IsAnswered b request result
    pub target_bound : target ≡ b.target
    pub last_request : w'.last_request ≡ some request
    pub last_result : w'.last_result ≡ some result
    pub success_told : report.success ≡ was_tested result.verdict
    pub item : Evidence
    pub item_noted : IsNote bench b result (bench.clock w.ticks) item
    pub item_kept : Gains w.evidence w'.evidence item

  abbrev pub Executed :
      Bound → ExecRequest → Trace → Result ValidationError ExecResult × Trace → Type 0
  Executed b req w (ok report, w') = IsRecorded b req.target report w w'
  Executed b req w (err e, w') = w'.evidence ≡ w.evidence

  abbrev strays : Bound → ExecRequest → Bool
  strays b req = not (req.target == b.target) || req.target == ""
