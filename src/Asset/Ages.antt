-- ===== src/Asset/Ages.antt =====
-- What becomes of an asset over any transitions and observations.
use blueveil.Prelude.{
  ◌≡◌, ◌⊎◌, inl, inr, refl, Bool-cases, true, false, ◌||◌, some, List, [], ◌∷◌, arith,
}
use blueveil.Prelude.Int.{ℤ}
use blueveil.Prelude.Time.{Time, is_zero, timestamp}
use blueveil.Prelude.Result.{Result, ok, err}
use blueveil.Contract.Equality.{same, same_iff}
use blueveil.Asset.Message.{Asset, AssetStatus, AssetStatus-discrete}
use blueveil.Asset.Lifecycle.{
  LifecycleError, next_states, is_legal, is_unset, transition, revived, touch,
}

-- The legal moves.
pub data Legal : AssetStatus → AssetStatus → Type 0 where
  confirms_legacy : Legal AssetStatus.unspecified AssetStatus.active
  confirms : Legal AssetStatus.discovered AssetStatus.active
  fades : Legal AssetStatus.active AssetStatus.stale
  dismisses : Legal AssetStatus.active AssetStatus.retired
  revives : Legal AssetStatus.stale AssetStatus.active
  retires : Legal AssetStatus.stale AssetStatus.retired

equals : (a b : AssetStatus) → same AssetStatus-discrete a b ≡ true → a ≡ b
equals a b = (same_iff AssetStatus-discrete a b).0

one_of :
    (a b c : AssetStatus)
    → (same AssetStatus-discrete a c || (same AssetStatus-discrete b c || false)) ≡ true
    → (a ≡ c) ⊎ (b ≡ c)
one_of a b c h = ground (arith, equals a c, equals b c)

only_one : (a c : AssetStatus) → (same AssetStatus-discrete a c || false) ≡ true → a ≡ c
only_one a c h = ground (arith, equals a c)

is_legal-Legal : (from to : AssetStatus) → is_legal (next_states from) to ≡ true → Legal from to
unfolding is_legal next_states
is_legal-Legal AssetStatus.unspecified to h =
    rw (← only_one AssetStatus.active to h) confirms_legacy
is_legal-Legal AssetStatus.discovered to h = rw (← only_one AssetStatus.active to h) confirms
is_legal-Legal AssetStatus.active to h = elim (one_of AssetStatus.stale AssetStatus.retired to h) [
  | inl e ↦ rw (← e) fades
  | inr e ↦ rw (← e) dismisses
]
is_legal-Legal AssetStatus.stale to h = elim (one_of AssetStatus.active AssetStatus.retired to h) [
  | inl e ↦ rw (← e) revives
  | inr e ↦ rw (← e) retires
]
is_legal-Legal AssetStatus.retired to h = cc h
is_legal-Legal (AssetStatus.out_of_range n) to h = cc h

-- A move that may fail; a failed one leaves the asset as it was.
pub data Event : Type 0 where
  transitions : AssetStatus → Time → Event
  observes : Time → Event

abbrev or_same : Asset → Result LifecycleError Asset → Asset
or_same a (ok a') = a'
or_same a (err e) = a

unfoldable pub after : List Event → Asset → Asset
after [] a = a
after (transitions to now ∷ events) a = after events (or_same a (transition (some a) to now))
after (observes now ∷ events) a = after events (or_same a (touch (some a) now))

-- What Touch does to a status: it takes ACTIVE where that is a legal move, and stays otherwise.
pub data Sees (a : AssetStatus) : AssetStatus → Type 0 where
  wakes : Legal a AssetStatus.active → Sees a AssetStatus.active
  keeps : (Legal a AssetStatus.active → ⊥) → Sees a a

-- One move. A transition that is legal and has a time takes exactly the one step that is asked for, and any
-- other leaves the asset as it was.
pub data Moves (a : Asset) : Event → Asset → Type 0 where
  steps :
      (to : AssetStatus) (now : Time)
      → Legal a.status to
      → is_zero now ≡ false
      → Moves a (transitions to now) (record a { status = to; last_seen = some (timestamp now) })
  refuses :
      (to : AssetStatus) (now : Time)
      → (Legal a.status to → is_zero now ≡ true)
      → Moves a (transitions to now) a
  sees :
      (s : AssetStatus) (now : Time)
      → Sees a.status s
      → is_zero now ≡ false
      → Moves a (observes now) (record a { status = s; last_seen = some (timestamp now) })
  misses : (now : Time) → is_zero now ≡ true → Moves a (observes now) a

-- A move for each event, in their order.
pub data Ages : Asset → List Event → Asset → Type 0 where
  here : {a : Asset} → Ages a [] a
  onward :
      {a b c : Asset} {e : Event} {events : List Event}
      → Moves a e b
      → Ages b events c
      → Ages a (e ∷ events) c

itself : (s : AssetStatus) → same AssetStatus-discrete s s ≡ true
itself s = (same_iff AssetStatus-discrete s s).1 refl

is_legal-refused :
    (from to : AssetStatus) → is_legal (next_states from) to ≡ false → Legal from to → ⊥
unfolding is_legal next_states
is_legal-refused from to h confirms_legacy = ground (arith, itself AssetStatus.active)
is_legal-refused from to h confirms = ground (arith, itself AssetStatus.active)
is_legal-refused from to h fades = ground (arith, itself AssetStatus.stale)
is_legal-refused from to h dismisses = ground (arith, itself AssetStatus.retired)
is_legal-refused from to h revives = ground (arith, itself AssetStatus.active)
is_legal-refused from to h retires = ground (arith, itself AssetStatus.retired)

never_unset : {a b : AssetStatus} → Legal a b → b ≡ AssetStatus.unspecified → ⊥
never_unset confirms_legacy e = cc e
never_unset confirms e = cc e
never_unset fades e = cc e
never_unset dismisses e = cc e
never_unset revives e = cc e
never_unset retires e = cc e

unset_is : (s : AssetStatus) → is_unset s ≡ true → s ≡ AssetStatus.unspecified
unset_is AssetStatus.unspecified h = refl
unset_is AssetStatus.discovered h = absurd (cc h)
unset_is AssetStatus.active h = absurd (cc h)
unset_is AssetStatus.stale h = absurd (cc h)
unset_is AssetStatus.retired h = absurd (cc h)
unset_is (AssetStatus.out_of_range n) h = absurd (cc h)

transition-Moves :
    (a : Asset) (to : AssetStatus) (now : Time)
    → Moves a (transitions to now) (or_same a (transition (some a) to now))
unfolding transition
transition-Moves a to now = elim (Bool-cases (is_unset to)) [
  | inl u ↦ rw u (refuses to now λ l. absurd (never_unset l (unset_is to u)))
  | inr u ↦ elim (Bool-cases (is_legal (next_states a.status) to)) [
    | inl p ↦ elim (Bool-cases (is_zero now)) [
      | inl z ↦ rw (u, p, z) (refuses to now λ l. z)
      | inr z ↦ rw (u, p, z) (steps to now (is_legal-Legal a.status to p) z)
    ]
    | inr p ↦ rw (u, p) (refuses to now λ l. absurd (is_legal-refused a.status to p l))
  ]
]

retired_rests : {a b : AssetStatus} → Legal a b → a ≡ AssetStatus.retired → ⊥
retired_rests confirms_legacy e = cc e
retired_rests confirms e = cc e
retired_rests fades e = cc e
retired_rests dismisses e = cc e
retired_rests revives e = cc e
retired_rests retires e = cc e

active_stays : {a b : AssetStatus} → Legal a b → a ≡ AssetStatus.active → b ≡ AssetStatus.active → ⊥
active_stays confirms_legacy e f = cc e
active_stays confirms e f = cc e
active_stays fades e f = cc f
active_stays dismisses e f = cc f
active_stays revives e f = cc e
active_stays retires e f = cc e

listed_only : (n : ℤ) {a b : AssetStatus} → Legal a b → a ≡ AssetStatus.out_of_range n → ⊥
listed_only n confirms_legacy e = cc e
listed_only n confirms e = cc e
listed_only n fades e = cc e
listed_only n dismisses e = cc e
listed_only n revives e = cc e
listed_only n retires e = cc e

revived-Sees : (s : AssetStatus) → Sees s (revived s)
unfolding revived
revived-Sees AssetStatus.unspecified = wakes confirms_legacy
revived-Sees AssetStatus.discovered = wakes confirms
revived-Sees AssetStatus.active = keeps λ l. active_stays l refl refl
revived-Sees AssetStatus.stale = wakes revives
revived-Sees AssetStatus.retired = keeps λ l. retired_rests l refl
revived-Sees (AssetStatus.out_of_range n) = keeps λ l. listed_only n l refl

touch-Moves : (a : Asset) (now : Time) → Moves a (observes now) (or_same a (touch (some a) now))
unfolding touch
touch-Moves a now = elim (Bool-cases (is_zero now)) [
  | inl z ↦ rw z (misses now z)
  | inr z ↦ rw z (sees (revived a.status) now (revived-Sees a.status) z)
]

-- Over any transitions and observations an asset makes one move for each, in their order: a transition takes
-- exactly the one legal step that is asked for, and changes nothing where that step is not legal or
-- the time is zero; an observation takes the status to ACTIVE where that is legal and keeps it
-- otherwise, and with a zero time changes nothing. A move sets the time of the last sighting, and
-- nothing else changes, so that the id and the first sighting stay.
pub after-Ages : (events : List Event) (a : Asset) → Ages a events (after events a)
unfolding after
after-Ages [] a = here
after-Ages (transitions to now ∷ events) a =
    onward (transition-Moves a to now) (after-Ages events (or_same a (transition (some a) to now)))
after-Ages (observes now ∷ events) a =
    onward (touch-Moves a now) (after-Ages events (or_same a (touch (some a) now)))

Sees-retired : {a b : AssetStatus} → Sees a b → a ≡ AssetStatus.retired → b ≡ AssetStatus.retired
Sees-retired (wakes l) e = absurd (retired_rests l e)
Sees-retired (keeps n) e = e

Moves-retired :
    {a b : Asset} {e : Event}
    → Moves a e b
    → a.status ≡ AssetStatus.retired
    → b.status ≡ AssetStatus.retired
Moves-retired (steps to now l z) r = absurd (retired_rests l r)
Moves-retired (refuses to now n) r = r
Moves-retired (sees s now l z) r = Sees-retired l r
Moves-retired (misses now z) r = r

Ages-retired :
    {a b : Asset} {events : List Event}
    → Ages a events b
    → a.status ≡ AssetStatus.retired
    → b.status ≡ AssetStatus.retired
Ages-retired here r = r
Ages-retired (onward m rest) r = Ages-retired rest (Moves-retired m r)

-- A retired asset stays retired, whatever is asked of it and however often it is observed.
pub retired_forever :
    (events : List Event) (a : Asset)
    → a.status ≡ AssetStatus.retired
    → (after events a).status ≡ AssetStatus.retired
retired_forever events a e = Ages-retired (after-Ages events a) e
