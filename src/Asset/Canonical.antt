-- ===== src/Asset/Canonical.antt =====
-- asset/canonicalize.go: the canonical form of an identifier and the id that it gives. Packages netip, net
-- and net/url are a parameter.
use Prim.Native.Char.{code}
use Prim.Native.String.{len, ◌++◌}
use blueveil.Prelude.{
  ℕ, Bool, true, false, ◌&&◌, ◌||◌, not, String, Option, none, some, List, [], ◌∷◌, ◌==◌,
  if◌then◌else◌, ltb, leb, eqb,
}
use blueveil.Prelude.Space.{trim_space, trim_dot, split_dots, has_prefix, has_suffix}
use blueveil.Prelude.Number.{natural_of}
use blueveil.Prelude.Text.{decimal, signed_decimal}
use blueveil.Prelude.Library.{Library, derived_id, to_lower}
use blueveil.Asset.Message.{AssetType}

-- What is read of a *url.URL.
pub record Url : Type 0 where
  pub host : String
  pub has_user : Bool
  pub scheme : String
  pub hostname : String
  pub port : String
  pub escaped_path : String
  pub raw_query : String

pub record Net : Type 0 where
  -- netip.ParseAddr, and String of the address
  pub parse_addr : String → Option String
  -- url.Parse
  pub parse_url : String → Option Url
  -- net.SplitHostPort
  pub split_host_port : String → Option (String × String)

is_label_char : ℕ → Bool
is_label_char c = (leb b'a' c && leb c b'z') || (leb b'0' c && leb c b'9') || eqb c b'-'

all_label_chars : String → Bool
unfolding is_label_char
all_label_chars String.[] = true
all_label_chars (String.◌∷◌ c s) = is_label_char (code c) && all_label_chars s

-- The checks on one label of a domain, and the loop over them.
unfoldable pub is_label : String → Bool
unfolding all_label_chars is_label_char
is_label s =
    not (eqb (len s) 0 || ltb 63 (len s))
    && all_label_chars s
    && not (has_prefix s "-" || has_suffix s "-")

unfoldable pub all_labels : List String → Bool
all_labels [] = true
all_labels (l ∷ ls) = is_label l && all_labels ls

abbrev some_if : Bool → String → Option String
some_if true s = some s
some_if false s = none

unfoldable pub is_domain : String → Bool
is_domain s = not (s == "" || ltb 253 (len s)) && all_labels (split_dots s)

unfoldable pub canonical_domain : Library → String → Option String
canonical_domain lib raw =
    let s = trim_dot (to_lower lib (trim_space raw)) in some_if (is_domain s) s

unfoldable pub canonical_ip : Net → String → Option String
canonical_ip net raw = net.parse_addr (trim_space raw)

-- The port that is kept: none where it is the default of the scheme.
unfoldable pub kept_port : String → String → String
kept_port scheme port =
    if (scheme == "http" && port == "80") || (scheme == "https" && port == "443") then "" else port

abbrev port_after : String → String → Option ℕ → Option String
port_after host port none = none
port_after host port (some n) = some (host ++ (":" ++ port))

-- `none` where the port is not a number. url.Parse has let only digits pass, so that a failure is one of
-- range.
unfoldable pub with_port : String → String → Option String
with_port host port = if port == "" then some host else port_after host port (natural_of port)

unfoldable pub url_text : Url → String → String → String
url_text u scheme host =
    let path = if u.escaped_path == "" then "/" else u.escaped_path in
    let query = if u.raw_query == "" then "" else "?" ++ u.raw_query in
    scheme ++ ("://" ++ (host ++ (path ++ query)))

abbrev finish_url : Url → String → Option String → Option String
finish_url u scheme none = none
finish_url u scheme (some host) = some (url_text u scheme host)

-- canonicalURL, of a parsed text.
unfoldable pub canonical_parsed : Library → Option Url → Option String
canonical_parsed lib none = none
canonical_parsed lib (some u) =
    let scheme = to_lower lib u.scheme in
    let host = to_lower lib u.hostname in
    if u.host == "" || u.has_user || not (scheme == "http" || scheme == "https") || host == ""
    then none
    else finish_url u scheme (with_port host (kept_port scheme u.port))

unfoldable pub canonical_url : Library → Net → String → Option String
canonical_url lib net raw = canonical_parsed lib (net.parse_url (trim_space raw))

-- strings.ContainsAny(s, " \t/")
unfoldable pub has_separator : String → Bool
has_separator String.[] = false
has_separator (String.◌∷◌ c s) =
    eqb (code c) 32 || eqb (code c) 9 || eqb (code c) b'/' || has_separator s

unfoldable pub canonical_host : Library → String → Option String
canonical_host lib raw =
    let s = to_lower lib (trim_space raw) in some_if (not (s == "") && not (has_separator s)) s

has_colon : String → Bool
has_colon String.[] = false
has_colon (String.◌∷◌ c s) = eqb (code c) b':' || has_colon s

unfoldable pub bracketed : String → String
unfolding has_colon
bracketed host = if has_colon host && not (has_prefix host "[") then "[" ++ (host ++ "]") else host

abbrev service_of : String → Option ℕ → Option String
service_of host none = none
service_of host (some n) =
    if ltb n 1 || ltb 65535 n then none else some (bracketed host ++ (":" ++ decimal n))

abbrev canonical_split : Library → Option (String × String) → Option String
canonical_split lib none = none
canonical_split lib (some (host, port)) =
    if to_lower lib host == "" then none else service_of (to_lower lib host) (natural_of port)

unfoldable pub canonical_service : Library → Net → String → Option String
canonical_service lib net raw = canonical_split lib (net.split_host_port (trim_space raw))

unfoldable pub canonical_opaque : String → Option String
canonical_opaque raw = let s = trim_space raw in some_if (not (s == "")) s

-- Canonicalize
unfoldable pub canonicalize : Library → Net → AssetType → String → Option String
canonicalize lib net AssetType.domain raw = canonical_domain lib raw
canonicalize lib net AssetType.ip_address raw = canonical_ip net raw
canonicalize lib net AssetType.url raw = canonical_url lib net raw
canonicalize lib net AssetType.host raw = canonical_host lib raw
canonicalize lib net AssetType.service raw = canonical_service lib net raw
canonicalize lib net AssetType.application raw = canonical_opaque raw
canonicalize lib net AssetType.container raw = canonical_opaque raw
canonicalize lib net AssetType.cloud_resource raw = canonical_opaque raw
canonicalize lib net AssetType.user_device raw = canonical_opaque raw
canonicalize lib net AssetType.network raw = canonical_opaque raw
canonicalize lib net AssetType.other raw = canonical_opaque raw
canonicalize lib net AssetType.unspecified raw = none
canonicalize lib net (AssetType.out_of_range _) raw = none

unfoldable pub type_number : AssetType → String
type_number AssetType.unspecified = "0"
type_number AssetType.host = "1"
type_number AssetType.container = "2"
type_number AssetType.service = "3"
type_number AssetType.network = "4"
type_number AssetType.cloud_resource = "5"
type_number AssetType.user_device = "6"
type_number AssetType.other = "7"
type_number AssetType.domain = "8"
type_number AssetType.ip_address = "9"
type_number AssetType.url = "10"
type_number AssetType.application = "11"
type_number (AssetType.out_of_range n) = signed_decimal n

-- IDFor
unfoldable pub asset_id : Library → AssetType → String → String
asset_id lib type canonical = derived_id lib "ast-" (type_number type ∷ canonical ∷ [])

unfoldable pub identifier_kind : AssetType → String
identifier_kind AssetType.domain = "domain"
identifier_kind AssetType.ip_address = "ip"
identifier_kind AssetType.url = "url"
identifier_kind AssetType.host = "host"
identifier_kind AssetType.service = "service"
identifier_kind AssetType.application = "application"
identifier_kind AssetType.container = "container"
identifier_kind AssetType.cloud_resource = "cloud-resource"
identifier_kind AssetType.user_device = "user-device"
identifier_kind AssetType.network = "network"
identifier_kind _ = "other"
