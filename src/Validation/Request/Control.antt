-- ===== src/Validation/Request/Control.antt =====
-- The control that the events of a detection name.
use blueveil.Prelude.{◌≢◌, ◌⊎◌, inl, inr, Bool-cases, subst, sym}
use blueveil.Prelude.{
  ◌≡◌, refl, ◌∙◌, ap, false, String, Option, none, some, List, ◌∷◌, ◌==◌, if◌then◌else◌, arith,
  eq_iff,
}
use blueveil.Prelude.Dict.{Dict, get}
use blueveil.Contract.Messages.{TelemetryEvent}
use blueveil.Validation.Request.{or_empty, control_of}

-- An attribute that is not there, or empty.
abbrev Lacks : TelemetryEvent → String → Type 0
Lacks e key = (v : String) → get e.attributes key ≡ some v → v ≡ ""

-- The control that an event names: by control_id, or else by rule_id.
pub data Names (e : TelemetryEvent) : String → Type 0 where
  by_control : (c : String) → get e.attributes "control_id" ≡ some c → c ≢ "" → Names e c
  by_rule :
      (c : String) → Lacks e "control_id" → get e.attributes "rule_id" ≡ some c → c ≢ "" → Names e c

-- The first of the events with these ids that names a control names this one.
pub data FirstNames (found : Dict TelemetryEvent) : List String → String → Type 0 where
  at :
      (id : String) (ids : List String) (e : TelemetryEvent) (c : String)
      → get found id ≡ some e
      → Names e c
      → FirstNames found (id ∷ ids) c
  past :
      (id : String) (ids : List String) (e : TelemetryEvent) (c : String)
      → get found id ≡ some e
      → Lacks e "control_id"
      → Lacks e "rule_id"
      → FirstNames found ids c
      → FirstNames found (id ∷ ids) c

unequal : (a b : String) → (a == b) ≡ false → a ≢ b
unequal a b h e = ground (arith, eq_iff a b)

or_empty-Lacks :
    (e : TelemetryEvent) (key : String) → or_empty (get e.attributes key) ≡ "" → Lacks e key
or_empty-Lacks e key h v f = rw f at h

given_value : (o : Option String) (c : String) → or_empty o ≡ c → c ≢ "" → o ≡ some c
given_value none c h n = absurd (n (sym h))
given_value (some v) c h n = ap (λ s. some s) h

-- What control_of finds, and when it finds nothing.
control_of-Names :
    (e : TelemetryEvent)
    → (Names e (control_of e) × (control_of e ≢ ""))
      ⊎ (Lacks e "control_id" × Lacks e "rule_id" × (control_of e ≡ ""))
unfolding control_of
control_of-Names e =
    let first = or_empty (get e.attributes "control_id") in
    let second = or_empty (get e.attributes "rule_id") in
    elim (Bool-cases (first == "")) [
      | inl p ↦
          let lacks = or_empty-Lacks e "control_id" ((eq_iff first "").0 p) in
          elim (Bool-cases (second == "")) [
            | inl q ↦
                let none_there = (eq_iff second "").0 q in
                inr (lacks, or_empty-Lacks e "rule_id" none_there, rw (p) none_there)
            | inr q ↦
                let n = unequal second "" q in
                inl (rw (p) (by_rule second lacks (given_value _ second refl n) n, n))
          ]
      | inr p ↦
          let n = unequal first "" p in
          inl (rw (p) (by_control first (given_value _ first refl n) n, n))
    ]

-- The control stays once one is found, and is the first one otherwise.
abbrev pub Settles : Dict TelemetryEvent → List String → String → String → Type 0
Settles found ids c c' = ((c ≢ "") → c' ≡ c) × ((c ≡ "") → c' ≢ "" → FirstNames found ids c')

pub settle :
    (found : Dict TelemetryEvent) (id : String) (ids : List String) (e : TelemetryEvent)
    (c c1 c2 : String)
    → get found id ≡ some e
    → c1 ≡ (if c == "" then control_of e else c)
    → Settles found ids c1 c2
    → Settles found (id ∷ ids) c c2
settle found id ids e c c1 c2 f h (kept, first) = elim (Bool-cases (c == "")) [
  | inl p ↦
      let h' : c1 ≡ control_of e = rw p at h in
      (
        λ n. absurd (n ((eq_iff c "").0 p)),
        λ _ n2. elim (control_of-Names e) [
          | inl (names, n) ↦
              let n1 : c1 ≢ "" = λ q. n (sym h' ∙ q) in
              subst (FirstNames found (id ∷ ids)) (sym (kept n1 ∙ h')) (at id ids e _ f names)
          | inr (no_control, no_rule, nothing) ↦
              past id ids e c2 f no_control no_rule (first (h' ∙ nothing) n2)
        ],
      )
  | inr p ↦
      let h' : c1 ≡ c = rw p at h in
      (λ n. kept (λ q. n (sym h' ∙ q)) ∙ h', λ q _. absurd (unequal c "" p q))
]
