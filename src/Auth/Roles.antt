-- ===== src/Auth/Roles.antt =====
-- auth/auth.go: roles, their hierarchy, and the role that a route needs.
use blueveil.Prelude.{
  ℕ, Bool, ◌&&◌, ◌||◌, String, Option, none, some, ◌==◌, if◌then◌else◌, ltb, leb,
}
use blueveil.Prelude.Space.{has_prefix, has_suffix}

abbrev pub role_read : String
role_read = "READ"

abbrev pub role_respond : String
role_respond = "RESPOND"

abbrev pub role_validate : String
role_validate = "VALIDATE"

abbrev pub role_admin : String
role_admin = "ADMIN"

unfoldable pub valid_role : String → Bool
valid_role r = r == role_read || r == role_respond || r == role_validate || r == role_admin

unfoldable pub role_rank : String → ℕ
role_rank r =
    if r == role_read
    then 1
    else if r == role_respond
    then 2
    else if r == role_validate
    then 3
    else if r == role_admin
    then 4
    else 0

unfoldable pub sufficient : String → String → Bool
sufficient held required = leb (role_rank required) (role_rank held) && ltb 0 (role_rank required)

-- CapabilityFor: the role that the route needs; `none` where it is public.
unfoldable pub capability_for : String → String → Option String
capability_for method path =
    if method == "GET" && (path == "/api/v1/healthz" || path == "/api/v1/readyz")
    then none
    else if method == "POST" && path == "/api/v1/assets/observations"
    then some role_respond
    else if method == "PATCH" && has_prefix path "/api/v1/assets/" && has_suffix path "/lifecycle"
    then some role_admin
    else if has_prefix path "/api/"
    then some role_read
    else none
