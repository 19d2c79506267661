-- ===== src/Contract/Passed.antt =====
-- What a check that is passed says.
use blueveil.Prelude.{◌≡◌, ◌↔◌, Bool, true, false, String, none, List, arith}
use blueveil.Prelude.Names.{contains}
use blueveil.Prelude.Space.{is_blank}
use blueveil.Prelude.Time.{Time, is_zero}
use blueveil.Contract.Fields.{required, listed, observed, refuse_if}

pub required_iff : (what value : String) → (required what value ≡ none) ↔ (is_blank value ≡ false)
unfolding required
required_iff what value = ground arith

pub listed_iff :
    (what : String) (vocabulary : List String) (value : String)
    → (listed what vocabulary value ≡ none) ↔ (contains vocabulary value ≡ true)
unfolding listed
listed_iff what vocabulary value = ground arith

pub observed_iff : (what : String) (t : Time) → (observed what t ≡ none) ↔ (is_zero t ≡ false)
unfolding observed
observed_iff what t = ground arith

pub refuse_if_iff : (t : Bool) (what : String) → (refuse_if t what ≡ none) ↔ (t ≡ false)
unfolding refuse_if
refuse_if_iff true what = ground arith
refuse_if_iff false what = ground arith
