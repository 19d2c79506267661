-- ===== src/Incident/Runs.antt =====
-- Sequences of calls of the manager's methods that change it. Its mutex makes every history of
-- concurrent callers such a sequence.
use blueveil.Prelude.{
  ◌≡◌, refl, sym, ◌∙◌, eq_iff, Bool, true, false, String, Option, none, some, List, [], ◌∷◌, arith,
}
use blueveil.Prelude.Time.{Time}
use blueveil.Prelude.Dict
use blueveil.Prelude.Names.{contains, sort, contains-sort}
use blueveil.Prelude.Result.{Result, ok, err}
use blueveil.Prelude.Exec.{Outcome, panicked, Exec, fail, gets, lift, require, ◌>>=◌, ◌>>◌}
use blueveil.Contract.Enums.{IncidentStatus}
use blueveil.Contract.Messages.{TelemetryEvent, Detection, Alert, Incident}
use blueveil.Prelude.Library.{Library}
use blueveil.Incident.Correlation.{correlation_key}
use blueveil.Incident.Records.{Record, Manager, new_manager, admit}
use blueveil.Incident.Manager
use blueveil.Incident.Manager.{
  attach, fold_into, found_for, enter_new, fold_by, ingest_for, transition_on,
}
use blueveil.Incident.Coherent.{
  IsCoherent, Names, is_some, new_manager-IsCoherent, ingest-IsCoherent, transition-IsCoherent,
}

pub data Call : Type 0 where
  ingest : Time → Option Alert → Option Detection → List (Option TelemetryEvent) → Call
  transition : Time → String → IncidentStatus → Call

abbrev pub is_panicked : {E A : Type 0} → Outcome E A → Bool
is_panicked panicked = true
is_panicked _ = false

module _ {S E : Type 0} where
  fail_answers : (A : Type 0) (e : E) (s : S) → is_panicked (fail {A = A} e s).0 ≡ false
  unfolding fail
  fail_answers A e s = refl

module _ {S E A B : Type 0} where
  lift_answers :
      (r : Result E A) (k : A → Exec S E B) (s : S)
      → ((a : A) → is_panicked (k a s).0 ≡ false)
      → is_panicked ((lift r >>= k) s).0 ≡ false
  unfolding ◌>>=◌
  lift_answers (ok a) k s h = h a
  lift_answers (err e) k s h = refl

  gets_answers :
      (f : S → A) (k : A → Exec S E B) (s : S)
      → is_panicked (k (f s) s).0 ≡ false
      → is_panicked ((gets f >>= k) s).0 ≡ false
  unfolding ◌>>=◌
  gets_answers f k s h = h

module _ {S E B : Type 0} where
  require_answers :
      (b : Bool) (e : E) (k : Exec S E B) (s : S)
      → is_panicked (k s).0 ≡ false
      → is_panicked ((require b e >> k) s).0 ≡ false
  unfolding ◌>>=◌
  require_answers true e k s h = h
  require_answers false e k s h = refl

module _ (lib : Library) where
  -- The manager after a call.
  unfoldable pub step : Call → Manager → Manager
  step (ingest now alert det events) m = (Manager.ingest lib now alert det events m).1
  step (transition now id to) m = (Manager.transition now id to m).1

  -- Whether a call panics.
  unfoldable pub panics : Call → Manager → Bool
  panics (ingest now alert det events) m = is_panicked (Manager.ingest lib now alert det events m).0
  panics (transition now id to) m = is_panicked (Manager.transition now id to m).0

  unfoldable pub run : List Call → Manager → Manager
  run [] m = m
  run (c ∷ calls) m = run calls (step c m)

  step-IsCoherent : (c : Call) (m : Manager) → IsCoherent m → IsCoherent (step c m)
  unfolding step
  step-IsCoherent (ingest now alert det events) m h =
      (ingest-IsCoherent lib now alert det events m h).holds
  step-IsCoherent (transition now id to) m h = (transition-IsCoherent now id to m h).holds

  run_from-IsCoherent : (calls : List Call) (m : Manager) → IsCoherent m → IsCoherent (run calls m)
  unfolding run
  run_from-IsCoherent [] m h = h
  run_from-IsCoherent (c ∷ calls) m h = run_from-IsCoherent calls (step c m) (step-IsCoherent c m h)

  -- After any calls on a new manager, every key names a stored record, a record is stored under the
  -- id of its incident, and the alert ids of the incident are those of the record's set.
  pub run-IsCoherent : (calls : List Call) → IsCoherent (run calls new_manager)
  run-IsCoherent calls = run_from-IsCoherent calls new_manager new_manager-IsCoherent

  fold_into-panicked :
      (now : Time) (alert : Alert) (det : Detection) (events : List TelemetryEvent) (id : String)
      (o : Option Record) (m : Manager)
      → is_some o ≡ true
      → is_panicked (fold_into now alert det events id o m).0 ≡ false
  unfolding fold_into attach ◌>>=◌
  fold_into-panicked now alert det events id none m h = cc h
  fold_into-panicked now alert det events id (some rec) m h = ground arith

  fold_by-panicked :
      (now : Time) (key : String) (alert : Alert) (det : Detection) (events : List TelemetryEvent)
      (o : Option String) (m : Manager)
      → Names m.by_id o
      → is_panicked (fold_by lib now key alert det events o m).0 ≡ false
  unfolding fold_by found_for enter_new ◌>>=◌
  fold_by-panicked now key alert det events none m h = ground arith
  fold_by-panicked now key alert det events (some id) m h =
      fold_into-panicked now alert det events id (Dict.get m.by_id id) m h

  ingest-panicked :
      (now : Time) (alert : Option Alert) (det : Option Detection)
      (events : List (Option TelemetryEvent)) (m : Manager)
      → IsCoherent m
      → is_panicked (Manager.ingest lib now alert det events m).0 ≡ false
  unfolding Manager.ingest ingest_for
  ingest-panicked now (some a) (some d) events m h = lift_answers (admit a d events) _ m λ present.
      require_answers _ _ _ m (
        gets_answers _ _ m (
          fold_by-panicked now (correlation_key a present) a d present _ m
            (h.named (correlation_key a present))))
  ingest-panicked now _ _ events m h = fail_answers _ _ m

  transition-panicked :
      (now : Time) (id : String) (to : IncidentStatus) (m : Manager)
      → is_panicked (Manager.transition now id to m).0 ≡ false
  unfolding Manager.transition transition_on ◌>>=◌
  transition-panicked now id to m = ground arith

  call-panics : (calls : List Call) (c : Call) → panics c (run calls new_manager) ≡ false
  unfolding panics
  call-panics calls (ingest now alert det events) =
      ingest-panicked now alert det events (run calls new_manager) (run-IsCoherent calls)
  call-panics calls (transition now id to) = transition-panicked now id to (run calls new_manager)

  -- The loop of List meets no nil pointer where every id is that of a record.
  incidents_of-some :
      (m : Manager) (ids : List String)
      → ((id : String) → contains ids id ≡ true → contains (Dict.keys m.by_id) id ≡ true)
      → (found : List Incident) × (Manager.incidents_of m ids ≡ some found)
  unfolding Manager.incidents_of Manager.get
  incidents_of-some m [] h = ([], refl)
  incidents_of-some m (id ∷ ids) h =
      let (rec, there) = Dict.get-keys m.by_id id (h id (ground (arith, eq_iff id id))) in
      let (rest, loop) = incidents_of-some m ids λ j c. h j (ground arith) in
      (rec.incident ∷ rest, rw (there, loop) refl)

  list-some : (m : Manager) → (found : List Incident) × (Manager.list m ≡ some found)
  unfolding Manager.list
  list-some m =
      incidents_of-some m (sort (Dict.keys m.by_id))
        λ id h. sym (contains-sort (Dict.keys m.by_id) id) ∙ h

  -- On a manager that any calls have led to, no call of Ingest or Transition panics, and List meets no nil
  -- pointer: it returns the incidents.
  pub run-panics :
      (calls : List Call) (c : Call)
      → (panics c (run calls new_manager) ≡ false)
        × ((found : List Incident) × (Manager.list (run calls new_manager) ≡ some found))
  run-panics calls c = (call-panics calls c, list-some (run calls new_manager))
