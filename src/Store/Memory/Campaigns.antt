-- ===== src/Store/Memory/Campaigns.antt =====
-- memoryCampaign of store/memory.go.
use blueveil.Prelude.{String, List, some}
use blueveil.Prelude.Dict.{Dict, listing}
use blueveil.Prelude.Result.{Result}
use blueveil.Prelude.Library.{Library}
use blueveil.Validation.Campaign.{Campaign, validate_campaign, campaign_id}
use blueveil.Store.Table.{Kind, StoreError, passes, create as create_row, save as save_row, lookup}

module _ (lib : Library) where
  abbrev pub kind : Kind Campaign
  kind = record { key = λ e. campaign_id lib e; accepts = λ e. passes (validate_campaign e) }

  -- Create
  unfoldable pub create : Dict Campaign → Campaign → Result StoreError (Dict Campaign)
  create r e = create_row kind r (some e)

  -- Save
  unfoldable pub save : Dict Campaign → Campaign → Result StoreError (Dict Campaign)
  save r e = save_row kind r (some e)

-- Get
unfoldable pub get : Dict Campaign → String → Result StoreError Campaign
get r id = lookup r id

-- List
unfoldable pub list : Dict Campaign → List Campaign
list r = listing r
