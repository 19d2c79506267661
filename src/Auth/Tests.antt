-- ===== src/Auth/Tests.antt =====
-- The theorems on credentials and roles at one key.
use blueveil.Auth.Roles.{capability_for, role_admin, sufficient, valid_role}
use blueveil.Prelude.Names.{add}
use blueveil.Auth.Guard.{
  Proves, authenticate-Proves, capability_for-public, sufficient-valid_role,
  sufficient-is_at_or_above, ladder, is_at_or_above,
}
use blueveil.Prelude.{◌≡◌, ◌↔◌, ◌⊎◌, refl, Bool, true, ◌&&◌, String, none, [], ◌∷◌, ◌==◌}
use blueveil.Prelude.Result.{ok}
use blueveil.Prelude.Space.{has_prefix, trim_space, is_space, trim_left, trim_right}
use blueveil.Auth.Keys.{
  Key, authenticate, bearer_secret, check_keys, drop_prefix, find_key, identity_of,
  new_authenticator,
}

abbrev operator : Key
operator = record { id = "ops"; role = "RESPOND"; hash = "h-s3cret"; expires_at = 0 }

abbrev fits : String → String → Bool
fits hash secret = (hash == "h-s3cret") && (secret == "s3cret")

abbrev any_hash : String → Bool
any_hash hash = true

accepted : new_authenticator any_hash (operator ∷ []) ≡ ok (operator ∷ [])
unfolding new_authenticator check_keys trim_space trim_left trim_right is_space valid_role add
accepted = refl

let_through :
    authenticate fits (operator ∷ []) 5 "Bearer  s3cret "
    ≡ ok (record { key_id = "ops"; role = "RESPOND" })
unfolding authenticate bearer_secret identity_of find_key has_prefix drop_prefix trim_space
    trim_left trim_right is_space
let_through = refl

authenticate-Proves_example :
    (k : Key) × Proves fits
      (operator ∷ [])
      5
      "Bearer  s3cret "
      (record { key_id = "ops"; role = "RESPOND" })
      k
authenticate-Proves_example =
    authenticate-Proves fits any_hash (operator ∷ []) (operator ∷ []) 5 "Bearer  s3cret "
      (record { key_id = "ops"; role = "RESPOND" }) accepted let_through

sufficient-is_at_or_above_example :
    sufficient "RESPOND" "VALIDATE" ≡ is_at_or_above ladder "RESPOND" "VALIDATE"
sufficient-is_at_or_above_example = sufficient-is_at_or_above "RESPOND" "VALIDATE"

sufficient-valid_role_example :
    (sufficient "VALIDATE" "VALIDATE" ≡ valid_role "VALIDATE")
    × (sufficient role_admin "VALIDATE" ≡ valid_role "VALIDATE")
sufficient-valid_role_example = sufficient-valid_role "VALIDATE"

abbrev get_method : String
get_method = "GET"

abbrev health : String
health = "/api/v1/healthz"

abbrev ready : String
ready = "/api/v1/readyz"

capability_for-public_example :
    (capability_for get_method health ≡ none)
    ↔ ((get_method ≡ get_method) × ((health ≡ health) ⊎ (health ≡ ready)))
unfolding has_prefix
capability_for-public_example = capability_for-public get_method health refl
