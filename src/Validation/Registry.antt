-- ===== src/Validation/Registry.antt =====
-- validation/registry.go: the providers by their ids.
use blueveil.Prelude.{not, String, Option, none, some, List, [], ◌∷◌}
use blueveil.Prelude.Dict.{Dict, empty, get, put, has, listing}
use blueveil.Prelude.Result.{Result, ok, err, ensure, ◌>>◌}
use blueveil.Validation.Error.{ValidationError, registry, nil_provider}
use blueveil.Validation.Provider.{Provider, ProviderInfo, check_provider}

abbrev pub new_registry : Dict Provider
new_registry = empty

abbrev add_provider : Dict Provider → Option Provider → Result ValidationError (Dict Provider)
add_provider r none = err nil_provider
add_provider r (some p) = do ensure (not (has r p.info.id)) registry; ok (put r p.info.id p)

-- Register: the registry after it.
unfoldable pub register : Dict Provider → Option Provider → Result ValidationError (Dict Provider)
register r p = check_provider p >> add_provider r p

-- Get
unfoldable pub find_provider : Dict Provider → String → Option Provider
find_provider r id = get r id

abbrev infos : List Provider → List ProviderInfo
infos [] = []
infos (p ∷ ps) = p.info ∷ infos ps

-- List
unfoldable pub list_providers : Dict Provider → List ProviderInfo
list_providers r = infos (listing r)
