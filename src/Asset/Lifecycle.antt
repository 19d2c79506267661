-- ===== src/Asset/Lifecycle.antt =====
-- asset/lifecycle.go: the legal moves of an asset, and re-observation. Neither function changes the
-- asset before it has passed its tests, so that an error leaves it as it was.
use blueveil.Prelude.{Bool, true, false, ◌||◌, not, Option, none, some, List, [], ◌∷◌}
use blueveil.Prelude.Time.{Time, is_zero, timestamp}
use blueveil.Prelude.Result.{Result, ok, err, ensure, ◌>>◌}
use blueveil.Contract.Equality.{same}
use blueveil.Asset.Message.{Asset, AssetStatus, AssetStatus-discrete}

-- ErrLifecycle
pub data LifecycleError : Type 0 where
  illegal : LifecycleError

unfoldable pub next_states : AssetStatus → List AssetStatus
next_states AssetStatus.unspecified = AssetStatus.active ∷ []
next_states AssetStatus.discovered = AssetStatus.active ∷ []
next_states AssetStatus.active = AssetStatus.stale ∷ AssetStatus.retired ∷ []
next_states AssetStatus.stale = AssetStatus.active ∷ AssetStatus.retired ∷ []
next_states _ = []

-- The loop over the legal successors.
unfoldable pub is_legal : List AssetStatus → AssetStatus → Bool
is_legal [] to = false
is_legal (s ∷ states) to = same AssetStatus-discrete s to || is_legal states to

abbrev pub is_unset : AssetStatus → Bool
is_unset AssetStatus.unspecified = true
is_unset _ = false

-- Transition: the asset after it.
unfoldable pub transition : Option Asset → AssetStatus → Time → Result LifecycleError Asset
transition none to now = err illegal
transition (some a) to now = do
  ensure (not (is_unset to)) illegal
  ensure (is_legal (next_states a.status) to) illegal
  ensure (not (is_zero now)) illegal
  ok (record a { status = to; last_seen = some (timestamp now) })

-- The switch of Touch.
unfoldable pub revived : AssetStatus → AssetStatus
revived AssetStatus.stale = AssetStatus.active
revived AssetStatus.discovered = AssetStatus.active
revived AssetStatus.unspecified = AssetStatus.active
revived s = s

-- Touch: the asset after it.
unfoldable pub touch : Option Asset → Time → Result LifecycleError Asset
touch none now = err illegal
touch (some a) now = do
  ensure (not (is_zero now)) illegal
  ok (record a { status = revived a.status; last_seen = some (timestamp now) })
