-- ===== src/Prelude/Library.antt =====
-- What the identifiers are made of: functions of Go's standard library whose text is not looked into.
-- Everything is proved for every choice of them.
use Prim.Native.Char.{Char}
use Prim.Native.String.{String, ◌++◌}
use mathlib.Core.Bool.{Bool}
use mathlib.Core.List.{List}
use text.Mathlib.Text.{◌==◌}
use blueveil.Prelude.Names.{join}
use blueveil.Prelude.Time.{Time}

pub record Library : Type 0 where
  -- hex.EncodeToString(sha256(text))[:16]
  pub digest16 : String → String
  -- t.UTC().Format(time.RFC3339Nano)
  pub rfc3339 : Time → String
  -- %q
  pub quote : String → String
  -- unicode.ToLower
  pub lower : Char → Char
  -- The least character that unicode.SimpleFold reaches.
  pub fold : Char → Char

-- prefix + hex(sha256(part + "\x1f" + part + ...))[:16]
unfoldable pub derived_id : Library → String → List String → String
unfolding join
derived_id lib prefix parts = prefix ++ lib.digest16 (join "\u{1f}" parts)

abbrev map_chars : (Char → Char) → String → String
map_chars f String.[] = ""
map_chars f (String.◌∷◌ c s) = String.◌∷◌ (f c) (map_chars f s)

-- strings.ToLower
unfoldable pub to_lower : Library → String → String
to_lower lib s = map_chars lib.lower s

-- strings.EqualFold
unfoldable pub equal_fold : Library → String → String → Bool
equal_fold lib s t = map_chars lib.fold s == map_chars lib.fold t
