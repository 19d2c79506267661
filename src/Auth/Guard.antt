-- ===== src/Auth/Guard.antt =====
-- Who gets through.
use blueveil.Prelude.{
  ◌<◌, ◌≡◌, ◌↔◌, ◌⊎◌, refl, sym, inl, inr, Bool-cases, Bool, true, false, ◌||◌, ◌==◌, if◌then◌else◌,
  String, Option, none, some, List, [], ◌∷◌, arith, eq_iff,
}
use blueveil.Prelude.Space.{has_prefix}
use blueveil.Prelude.Time.{Time, is_zero}
use blueveil.Prelude.Names.{add}
use blueveil.Prelude.Result.{ok}
use blueveil.Auth.Roles.{
  role_read, role_respond, role_validate, role_admin, valid_role, role_rank, sufficient,
  capability_for,
}
use blueveil.Auth.Keys.{
  Key, Identity, bearer_secret, check_keys, new_authenticator, find_key, identity_of, authenticate,
}

-- The roles from the lowest to the highest.
abbrev pub ladder : List String
ladder = role_read ∷ role_respond ∷ role_validate ∷ role_admin ∷ []

abbrev stands_on : List String → String → Bool
stands_on [] name = false
stands_on (r ∷ rs) name = name == r || stands_on rs name

-- Whether a name stands on the ladder at or above another that stands on it.
abbrev pub is_at_or_above : List String → String → String → Bool
is_at_or_above [] held required = false
is_at_or_above (r ∷ rs) held required =
    let rest = is_at_or_above rs held required in
    if required == r then stands_on (r ∷ rs) held else rest

-- A name is one of the roles, or none of them.
Role-cases :
    (r : String)
    → (r ≡ role_read)
      ⊎ ((r ≡ role_respond)
          ⊎ ((r ≡ role_validate)
              ⊎ ((r ≡ role_admin)
                  ⊎ (((r == role_read) ≡ false)
                      × ((r == role_respond) ≡ false)
                      × ((r == role_validate) ≡ false)
                      × ((r == role_admin) ≡ false)))))
Role-cases r =
    ground (
      arith,
      eq_iff r role_read,
      eq_iff r role_respond,
      eq_iff r role_validate,
      eq_iff r role_admin,
    )

-- A role suffices for a required one exactly when both are roles and the held one is not below the required
-- one on the ladder READ, RESPOND, VALIDATE, ADMIN.
pub sufficient-is_at_or_above :
    (held required : String) → sufficient held required ≡ is_at_or_above ladder held required
unfolding sufficient role_rank
sufficient-is_at_or_above held required = elim (Role-cases held) [
  | inl e ↦ rw e (ground arith)
  | inr (inl e) ↦ rw e (ground arith)
  | inr (inr (inl e)) ↦ rw e (ground arith)
  | inr (inr (inr (inl e))) ↦ rw e (ground arith)
  | inr (inr (inr (inr (a, b, c, d)))) ↦ rw (a, b, c, d) (ground arith)
]

-- A role suffices for itself exactly when it is one of the four, and then an administrator's
-- suffices for it.
pub sufficient-valid_role :
    (r : String) → (sufficient r r ≡ valid_role r) × (sufficient role_admin r ≡ valid_role r)
unfolding sufficient role_rank valid_role
sufficient-valid_role r = ground (arith, eq_iff r role_read)

abbrev pub OneOf : Key → List Key → Type 0
OneOf k [] = ⊥
OneOf k (x ∷ keys) = (k ≡ x) ⊎ OneOf k keys

module _ (matches : String → String → Bool) where
  find_key-OneOf :
      (keys : List Key) (secret : String) (k : Key)
      → find_key matches keys secret ≡ some k
      → OneOf k keys × (matches k.hash secret ≡ true)
  unfolding find_key
  find_key-OneOf [] secret k h = cc h
  find_key-OneOf (x ∷ keys) secret k h = elim (Bool-cases (matches x.hash secret)) [
    | inl p ↦ let same : x ≡ k = cc (rw p at h) in (inl (sym same), rw (← same) p)
    | inr p ↦ let (o, m) = find_key-OneOf keys secret k (rw p at h) in (inr o, m)
  ]

module _ (well_formed : String → Bool) where
  check_keys_next :
      (x : Key) (keys : List Key) (seen : List String)
      → check_keys well_formed (x ∷ keys) seen ≡ ok tt
      → (valid_role x.role ≡ true) × (check_keys well_formed keys (add seen x.id) ≡ ok tt)
  unfolding check_keys
  check_keys_next x keys seen h = ground arith

  check_keys-valid_role :
      (keys : List Key) (seen : List String) (k : Key)
      → check_keys well_formed keys seen ≡ ok tt
      → OneOf k keys
      → valid_role k.role ≡ true
  unfolding check_keys
  check_keys-valid_role [] seen k h o = absurd o
  check_keys-valid_role (x ∷ keys) seen k h (inl e) = rw e (check_keys_next x keys seen h).0
  check_keys-valid_role (x ∷ keys) seen k h (inr o) =
      check_keys-valid_role keys (add seen x.id) k (check_keys_next x keys seen h).1 o

  new_authenticator-check_keys :
      (keys set : List Key)
      → new_authenticator well_formed keys ≡ ok set
      → (check_keys well_formed keys [] ≡ ok tt) × (set ≡ keys)
  unfolding new_authenticator
  new_authenticator-check_keys keys set h = ground arith

-- The credential is a live one: the key is in the set, its hash fits the secret of the header, it
-- has not expired, and the identity is the key's, with one of the four roles.
pub record Proves (matches : String → String → Bool) (keys : List Key) (now : Time)
    (header : String) (who : Identity) (k : Key) : Type 0 where
  pub configured : OneOf k keys
  pub presented :
      (secret : String) × (bearer_secret header ≡ ok secret) × (matches k.hash secret ≡ true)
  pub unexpired : (is_zero k.expires_at ≡ true) ⊎ (now < k.expires_at)
  pub same_id : who.key_id ≡ k.id
  pub same_role : who.role ≡ k.role
  pub known_role : valid_role who.role ≡ true

module _ (matches : String → String → Bool) where
  authenticated_parts :
      (keys : List Key) (now : Time) (header : String) (who : Identity)
      → authenticate matches keys now header ≡ ok who
      → (secret : String) × (bearer_secret header ≡ ok secret)
        × (identity_of matches (find_key matches keys secret) now ≡ ok who)
  unfolding authenticate
  authenticated_parts keys now header who h = ground arith

  let_in :
      (k : Key) (now : Time) (who : Identity)
      → identity_of matches (some k) now ≡ ok who
      → ((is_zero k.expires_at ≡ true) ⊎ (now < k.expires_at))
        × (who.key_id ≡ k.id)
        × (who.role ≡ k.role)
  unfolding identity_of
  let_in k now who h = ground arith

  identified :
      (o : Option Key) (now : Time) (who : Identity)
      → identity_of matches o now ≡ ok who
      → (k : Key) × (o ≡ some k)
        × ((is_zero k.expires_at ≡ true) ⊎ (now < k.expires_at))
        × (who.key_id ≡ k.id)
        × (who.role ≡ k.role)
  unfolding identity_of
  identified none now who h = cc h
  identified (some k) now who h =
      let (live, id, role) = let_in k now who h in (k, refl, live, id, role)

  -- Whoever is authenticated, with a key set that the constructor has accepted, has presented the
  -- secret of a key of the set that has not expired, and gets that key's id and role, which is one
  -- of the four.
  pub authenticate-Proves :
      (well_formed : String → Bool) (keys set : List Key) (now : Time) (header : String)
      (who : Identity)
      → new_authenticator well_formed keys ≡ ok set
      → authenticate matches set now header ≡ ok who
      → (k : Key) × Proves matches keys now header who k
  authenticate-Proves well_formed keys set now header who made h =
      let (checked, same) = new_authenticator-check_keys well_formed keys set made in
      let (secret, given, known) = authenticated_parts set now header who h in
      let (k, found, live, id, role) = identified (find_key matches set secret) now who known in
      let (member, fits) = find_key-OneOf matches keys secret k (rw same at found) in
      (
        k,
        record {
          configured = member;
          presented = (secret, given, fits);
          unexpired = live;
          same_id = id;
          same_role = role;
          known_role = rw role (check_keys-valid_role well_formed keys [] k checked member);
        },
      )

-- Of the routes under /api/, the two that report health and readiness to a GET are public, and no
-- other.
pub capability_for-public :
    (method path : String)
    → has_prefix path "/api/" ≡ true
    → (capability_for method path ≡ none)
      ↔ ((method ≡ "GET") × ((path ≡ "/api/v1/healthz") ⊎ (path ≡ "/api/v1/readyz")))
unfolding capability_for
capability_for-public method path h =
    ground (arith, eq_iff method "GET", eq_iff path "/api/v1/healthz", eq_iff path "/api/v1/readyz")
