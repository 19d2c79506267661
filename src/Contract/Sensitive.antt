-- ===== src/Contract/Sensitive.antt =====
-- contract/sensitive.go: the attribute names that are never kept or shown.
use blueveil.Prelude.{Bool, true, false, ◌||◌, String, List, [], ◌∷◌, ◌==◌, if◌then◌else◌}
use blueveil.Prelude.Space.{has_prefix}
use blueveil.Prelude.Library.{Library, to_lower}

-- SensitiveFragments
abbrev pub sensitive_fragments : List String
sensitive_fragments =
    "password" ∷ "passwd" ∷ "token" ∷ "access_token" ∷ "refresh_token" ∷ "secret" ∷ "credential"
    ∷ "cookie" ∷ "authorization" ∷ "session" ∷ "mfa" ∷ "api_key" ∷ "api-key" ∷ "apikey"
    ∷ "private_key" ∷ "private-key" ∷ "privatekey" ∷ "access_key" ∷ "access-key" ∷ []

-- strings.Contains(s, fragment)
unfoldable pub has_text : String → String → Bool
has_text String.[] fragment = fragment == ""
has_text (String.◌∷◌ c s) fragment =
    let rest = has_text s fragment in if has_prefix (String.◌∷◌ c s) fragment then true else rest

-- The loop over the fragments.
unfoldable pub has_any : String → List String → Bool
has_any low [] = false
has_any low (f ∷ fs) = has_text low f || has_any low fs

-- SensitiveField
unfoldable pub sensitive_field : Library → String → Bool
sensitive_field lib key = has_any (to_lower lib key) sensitive_fragments
