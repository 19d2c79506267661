-- ===== src/Asset/Tests.antt =====
-- The life of a web server that is retired.
use blueveil.Prelude.{◌≡◌, refl, some, List, [], ◌∷◌}
use blueveil.Prelude.Dict
use blueveil.Contract.Enums.{Severity}
use blueveil.Asset.Message.{Asset, AssetType, AssetStatus}
use blueveil.Asset.Ages.{Event, transitions, observes, after, Ages, after-Ages, retired_forever}
use blueveil.Response.Samples.{noon, stamp}

abbrev server : Asset
server = record {
  id = "web01";
  type = AssetType.host;
  name = "web01";
  identifiers = [];
  criticality = Severity.high;
  environment = "lab";
  status = AssetStatus.discovered;
  first_seen = some stamp;
  last_seen = some stamp;
  attributes = Dict.empty;
}

abbrev life : List Event
life =
    observes noon
    ∷ transitions AssetStatus.discovered noon
    ∷ transitions AssetStatus.retired noon
    ∷ observes noon
    ∷ []

after-Ages_example : Ages server life (after life server)
after-Ages_example = after-Ages life server

retired_forever_example :
    (after life (record server { status = AssetStatus.retired })).status ≡ AssetStatus.retired
retired_forever_example = retired_forever life (record server { status = AssetStatus.retired }) refl
