-- ===== src/Auth/Keys.antt =====
-- auth/auth.go: the API key authenticator. `matches` is bcrypt.CompareHashAndPassword == nil, and
-- `well_formed` is bcrypt.Cost without an error.
use blueveil.Prelude.{
  Bool, ◌&&◌, not, String, Option, none, some, List, [], ◌∷◌, ◌==◌, if◌then◌else◌, is_empty,
}
use blueveil.Prelude.Space.{trim_space, has_prefix}
use blueveil.Prelude.Time.{Time, is_zero, before}
use blueveil.Prelude.Names.{contains, add}
use blueveil.Prelude.Result.{Result, ok, err, ensure, ◌>>=◌, ◌>>◌}
use blueveil.Auth.Roles.{valid_role}

pub data AuthError : Type 0 where
  missing_credentials invalid_credentials expired_credential : AuthError

-- The construction errors of NewAPIKeyAuthenticator.
pub data KeySetError : Type 0 where
  no_keys empty_id duplicate_id unknown_role malformed_hash : KeySetError

pub record Identity : Type 0 where
  pub key_id : String
  pub role : String

-- Key and keyEntry.
pub record Key : Type 0 where
  pub id : String
  pub role : String
  pub hash : String
  pub expires_at : Time

-- The text after "Bearer ", of a header that begins with it.
unfoldable pub drop_prefix : String → String → String
drop_prefix s String.[] = s
drop_prefix String.[] (String.◌∷◌ d prefix) = ""
drop_prefix (String.◌∷◌ c s) (String.◌∷◌ d prefix) = drop_prefix s prefix

-- bearerSecret, on the Authorization header ("" where there is none).
unfoldable pub bearer_secret : String → Result AuthError String
bearer_secret header = do
  ensure (not (header == "")) missing_credentials
  ensure (has_prefix header "Bearer ") invalid_credentials
  let secret = trim_space (drop_prefix header "Bearer ")
  ensure (not (secret == "")) invalid_credentials
  ok secret

module _ (well_formed : String → Bool) where
  -- The loop of NewAPIKeyAuthenticator, with the ids seen.
  unfoldable pub check_keys : List Key → List String → Result KeySetError (Unit {0})
  check_keys [] seen = ok tt
  check_keys (k ∷ keys) seen = do
    ensure (not (trim_space k.id == "")) empty_id
    ensure (not (contains seen k.id)) duplicate_id
    ensure (valid_role k.role) unknown_role
    ensure (well_formed k.hash) malformed_hash
    check_keys keys (add seen k.id)

  -- NewAPIKeyAuthenticator: the key set.
  unfoldable pub new_authenticator : List Key → Result KeySetError (List Key)
  new_authenticator keys = do ensure (not (is_empty keys)) no_keys; check_keys keys []; ok keys

module _ (matches : String → String → Bool) where
  -- The loop of Authenticate: the first key whose hash the secret fits.
  unfoldable pub find_key : List Key → String → Option Key
  find_key [] secret = none
  find_key (k ∷ keys) secret =
      let rest = find_key keys secret in if matches k.hash secret then some k else rest

  unfoldable pub identity_of : Option Key → Time → Result AuthError Identity
  identity_of none now = err invalid_credentials
  identity_of (some k) now =
      if not (is_zero k.expires_at) && not (before now k.expires_at)
      then err expired_credential
      else ok (record { key_id = k.id; role = k.role })

  -- APIKeyAuthenticator.Authenticate
  unfoldable pub authenticate : List Key → Time → String → Result AuthError Identity
  authenticate keys now header = do
    secret ← bearer_secret header
    identity_of (find_key keys secret) now
