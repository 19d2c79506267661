-- ===== src/Response/Engine/Recommended.antt =====
-- Engine.Recommend: what the recommender leaves alone, and that the engine stays sound.
use blueveil.Prelude.{◌≡◌, refl, String, Option, none, some, List, arith}
use blueveil.Prelude.Time.{Time}
use blueveil.Prelude.Result.{ok}
use blueveil.Prelude.Exec.{returned, ◌>>=◌}
use blueveil.Prelude.Exec.After.{
  after_pure, after_lift_ok, after_require, after_modify, After, after_bind, after_gets,
}
use blueveil.Contract.Enums.{ResponseStatus}
use blueveil.Contract.Messages.{Incident, Alert, Detection, TelemetryEvent, ResponseRecommendation}
use blueveil.Response.Safety.{SafetyState, advance, next_state, step_on}
use blueveil.Prelude.Library.{Library}
use blueveil.Response.Recommend.{Inputs, propose, proposal}
use blueveil.Response.Engine.State.{new_session, Environment, Engine, now}
use blueveil.Response.Engine.Phase.{InPhase}
use blueveil.Response.Engine.Sound.{IsSound, put-IsSound, around-IsSound}
use blueveil.Response.Engine.Methods.{
  propose_for, propose_from, recommender_recommend, store_unless, recommend,
}

-- What the recommender returns has status PROPOSED.
propose-proposed :
    (lib : Library) (i : Incident) (a : Alert) (d : Detection) (names : List String) (t : Time)
    {r : ResponseRecommendation}
    → propose lib i a d names t ≡ ok r
    → r.status ≡ ResponseStatus.proposed
unfolding propose proposal
propose-proposed lib i a d names t h = ground arith

abbrev pub OnlyTicks : {X : Type 0} → Engine X → Engine X → Type 0
OnlyTicks e e' =
    (e'.recs ≡ e.recs)
    × (e'.sessions ≡ e.sessions)
    × (e'.ambient.entries ≡ e.ambient.entries)
    × (e'.ambient.world ≡ e.ambient.world)

module _ {X : Type 0} (env : Environment X) where
  propose_from_frame :
      (i : Incident) (a : Alert) (d : Detection) (events : List (Option TelemetryEvent))
      (e : Engine X)
      → OnlyTicks e (propose_from env i a d events e).1
  unfolding propose_from ◌>>=◌
  propose_from_frame i a d events e = ground arith

  propose_from-proposed :
      (i : Incident) (a : Alert) (d : Detection) (events : List (Option TelemetryEvent))
      (e : Engine X) {r : ResponseRecommendation}
      → (propose_from env i a d events e).0 ≡ returned r
      → r.status ≡ ResponseStatus.proposed
  unfolding propose_from ◌>>=◌
  propose_from-proposed i a d events e h = grind (arith, propose-proposed)

  pub propose_for_frame :
      (i : Option Incident) (a : Option Alert) (d : Option Detection)
      (events : List (Option TelemetryEvent)) (e : Engine X)
      → OnlyTicks e (propose_for env i a d events e).1
  unfolding propose_for ◌>>=◌
  propose_for_frame (some i) (some a) (some d) events e = propose_from_frame i a d events e
  propose_for_frame _ _ _ events e = (refl, refl, refl, refl)

  pub propose_for-proposed :
      (i : Option Incident) (a : Option Alert) (d : Option Detection)
      (events : List (Option TelemetryEvent)) (e : Engine X) {r : ResponseRecommendation}
      → (propose_for env i a d events e).0 ≡ returned r
      → r.status ≡ ResponseStatus.proposed
  unfolding propose_for ◌>>=◌
  propose_for-proposed (some i) (some a) (some d) events e h =
      propose_from-proposed i a d events e h
  propose_for-proposed _ _ _ events e h = cc h

pub new_session-InPhase :
    (r : ResponseRecommendation)
    → r.status ≡ ResponseStatus.proposed
    → InPhase r (new_session SafetyState.recommend)
new_session-InPhase r h = ground arith

OnlyTicks-IsSound : {X : Type 0} (e e' : Engine X) → OnlyTicks e e' → IsSound e → IsSound e'
OnlyTicks-IsSound e e' o h = record { entry = λ id. rw (o.0, o.1) (h.entry id) }

module _ {X : Type 0} (env : Environment X) where
  store_unless-IsSound :
      (existing : Option ResponseRecommendation) (r : ResponseRecommendation) (e : Engine X)
      → IsSound e
      → r.status ≡ ResponseStatus.proposed
      → After (store_unless env existing r) e IsSound
  unfolding store_unless advance next_state step_on
  store_unless-IsSound (some old) r e h p = after_pure old e h
  store_unless-IsSound none r e h p =
      let g = new_session-InPhase r p in
      after_lift_ok _ e refl (
        after_lift_ok _ e refl (
          after_require _ _ _ e h λ _. after_modify _ _ e (
            after_bind _ _ _ (put-IsSound e r.id r (new_session SafetyState.recommend) _ h g) λ _ _.
              after_pure r _ (put-IsSound e r.id r (new_session SafetyState.recommend) _ h g))))

  pub recommend-IsSound :
      (i : Inputs) (e : Engine X) → IsSound e → After (recommend env i) e IsSound
  unfolding recommend recommender_recommend
  recommend-IsSound i e h =
      let h1 = around-IsSound e (now env e.ambient).1 h in
      after_bind _ _ e h1 λ t _.
        let frame = propose_for_frame env i.incident i.alert i.detection i.events _ in
        let h2 = OnlyTicks-IsSound _ _ frame h1 in
        after_bind _ _ _ h2 λ r made. after_gets _ _ _ (
          store_unless-IsSound _ r _ h2
            (propose_for-proposed env i.incident i.alert i.detection i.events _ made))
