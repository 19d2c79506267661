-- ===== src/Prelude/Number.antt =====
-- strconv.Atoi, for the callers that refuse negative numbers. An int has 64 bits.
use Prim.Native.Char.{code}
use Prim.Native.Nat.{ℕ, ◌+◌, ◌-◌, ◌*◌}
use Prim.Native.String.{String}
use mathlib.Core.Bool.{◌&&◌}
use mathlib.Core.Option.{Option, none, some}
use blueveil.Prelude.Tests.{leb, eqb, if◌then◌else◌}

-- The number that the digits stand for after n; `none` at another character.
unfoldable pub digits_value : ℕ → String → Option ℕ
digits_value n String.[] = some n
digits_value n (String.◌∷◌ c s) =
    let rest = digits_value (n * 10 + (code c - b'0')) s in
    if leb b'0' (code c) && leb (code c) b'9' then rest else none

unfoldable pub unsigned : String → Option ℕ
unsigned String.[] = none
unsigned (String.◌∷◌ c s) = digits_value 0 (String.◌∷◌ c s)

-- math.MaxInt
abbrev pub max_int : ℕ
max_int = 9223372036854775807

abbrev up_to : ℕ → Option ℕ → Option ℕ
up_to limit none = none
up_to limit (some n) = if leb n limit then some n else none

-- strconv.Atoi(p) for a number that is not negative; `none` for an error and for a negative number. A sign
-- is accepted.
unfoldable pub natural_of : String → Option ℕ
natural_of String.[] = none
natural_of (String.◌∷◌ c s) =
    if eqb (code c) b'+'
    then up_to max_int (unsigned s)
    else if eqb (code c) b'-'
    then up_to 0 (unsigned s)
    else up_to max_int (unsigned (String.◌∷◌ c s))
