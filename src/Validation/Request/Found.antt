-- ===== src/Validation/Request/Found.antt =====
-- The events that BuildRequest finds by their ids are those that it is given.
use blueveil.Prelude.{
  ◌≡◌, sym, ◌∙◌, Bool-cases, ◌⊎◌, inl, inr, String, Option, none, some, List, [], ◌∷◌, ◌==◌, eq_iff,
}
use blueveil.Prelude.Dict.{Dict, empty, get, put, get-put, get-empty}
use blueveil.Prelude.Result.{ok, ok_injective}
use blueveil.Contract.Messages.{TelemetryEvent}
use blueveil.Validation.Request.{by_id}

-- The event is one of the list.
abbrev pub OneOf : TelemetryEvent → List (Option TelemetryEvent) → Type 0
OneOf e [] = ⊥
OneOf e (none ∷ events) = OneOf e events
OneOf e (some x ∷ events) = (x ≡ e) ⊎ OneOf e events

some_injective :
    {a b : TelemetryEvent} → (◌≡◌ {A = Option TelemetryEvent} (some a) (some b)) → a ≡ b
some_injective h = cc h

by_id-OneOf :
    (events : List (Option TelemetryEvent)) (acc found : Dict TelemetryEvent)
    → by_id events acc ≡ ok found
    → (id : String) (e : TelemetryEvent) → get found id ≡ some e
    → (get acc id ≡ some e) ⊎ ((e.id ≡ id) × OneOf e events)
unfolding by_id
by_id-OneOf [] acc found h id e g = inl (rw (ok_injective h) g)
by_id-OneOf (none ∷ events) acc found h id e g = absurd (cc h)
by_id-OneOf (some x ∷ events) acc found h id e g =
    elim (by_id-OneOf events (put acc x.id x) found h id e g) [
      | inl there ↦ elim (Bool-cases (x.id == id)) [
        | inl p ↦
            let same : x ≡ e = some_injective (rw (get-put acc x.id id x, p) at there) in
            inr (rw (← same) ((eq_iff x.id id).0 p), inl same)
        | inr p ↦ inl (rw (get-put acc x.id id x, p) at there)
      ]
      | inr (named, listed) ↦ inr (named, inr listed)
    ]

empty_lacks : (id : String) (e : TelemetryEvent) → get empty id ≡ some e → ⊥
empty_lacks id e h = let gone : none ≡ some e = sym (get-empty id) ∙ h in cc gone

pub found-OneOf :
    (events : List (Option TelemetryEvent)) (found : Dict TelemetryEvent)
    → by_id events empty ≡ ok found
    → (id : String) (e : TelemetryEvent) → get found id ≡ some e
    → (e.id ≡ id) × OneOf e events
found-OneOf events found h id e g = elim (by_id-OneOf events empty found h id e g) [
  | inl there ↦ absurd (empty_lacks id e there)
  | inr r ↦ r
]
