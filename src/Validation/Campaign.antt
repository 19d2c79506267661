-- ===== src/Validation/Campaign.antt =====
-- validation/campaign.go: cases and campaigns.
use blueveil.Prelude.{Bool, ◌&&◌, not, String, none, some, List, [], ◌∷◌}
use blueveil.Prelude.Int.{ℤ}
use blueveil.Prelude.Names.{contains}
use blueveil.Prelude.Time.{Time, is_zero, before}
use blueveil.Prelude.Library.{Library, derived_id}
use blueveil.Contract.Enums.{OperationType, RiskLevel, operation_enumeration, risk_enumeration}
use blueveil.Contract.Check.{Check, ◌>>◌, rejected, unknown_value, check_value}
use blueveil.Contract.Fields.{required, refuse_if}

-- An int: the four constants, and any other number.
pub data CampaignStatus : Type 0 where
  draft running completed failed : CampaignStatus
  out_of_range : ℤ → CampaignStatus

unfoldable pub campaign_status_name : CampaignStatus → String
campaign_status_name CampaignStatus.draft = "DRAFT"
campaign_status_name CampaignStatus.running = "RUNNING"
campaign_status_name CampaignStatus.completed = "COMPLETED"
campaign_status_name CampaignStatus.failed = "FAILED"
campaign_status_name (CampaignStatus.out_of_range _) = "UNKNOWN"

abbrev pub case_domains : List String
case_domains =
    "network" ∷ "application" ∷ "endpoint" ∷ "server" ∷ "container" ∷ "cloud" ∷ "identity" ∷ "auth"
    ∷ "data" ∷ "waf" ∷ []

abbrev pub expected_behaviors : List String
expected_behaviors = "PREVENT" ∷ "DETECT" ∷ "PREVENT_AND_DETECT" ∷ "OBSERVE" ∷ []

-- validDomain
unfoldable pub valid_case_domain : String → Bool
valid_case_domain d = contains case_domains d

unfoldable pub valid_expected : String → Bool
valid_expected e = contains expected_behaviors e

pub record ValidationCase : Type 0 where
  pub title : String
  pub domain : String
  pub target : String
  pub expected : String
  pub operation : OperationType
  pub risk : RiskLevel
  pub provider : String
  pub source : String

unfoldable pub case_id : Library → ValidationCase → String
case_id lib c =
    derived_id lib "vcase-"
      ("blueveil-validation-case-v1" ∷ c.title ∷ c.domain ∷ c.target ∷ c.expected ∷ c.provider ∷ [])

unfoldable pub validate_case : ValidationCase → Check
validate_case c = do
  required "title" c.title
  refuse_if (not (valid_case_domain c.domain)) "domain"
  required "target" c.target
  refuse_if (not (valid_expected c.expected)) "expected"
  check_value "operation" c.operation
  check_value "risk" c.risk
  required "provider" c.provider
  required "source" c.source

pub record Campaign : Type 0 where
  pub name : String
  pub description : String
  pub target : String
  pub provider : String
  pub source : String
  pub status : CampaignStatus
  pub created_at : Time
  pub started_at : Time
  pub completed_at : Time
  pub case_ids : List String
  pub result_ids : List String

unfoldable pub campaign_id : Library → Campaign → String
campaign_id lib c =
    derived_id lib "vcamp-"
      ("blueveil-validation-campaign-v1" ∷ c.name ∷ c.target ∷ c.provider ∷ [])

abbrev known_status : CampaignStatus → Check
known_status (CampaignStatus.out_of_range _) = some (rejected "status" unknown_value)
known_status _ = none

unfoldable pub validate_campaign : Campaign → Check
validate_campaign c = do
  required "name" c.name
  required "target" c.target
  required "provider" c.provider
  required "source" c.source
  known_status c.status
  refuse_if
      (not (is_zero c.created_at) && not (is_zero c.started_at) && before c.started_at c.created_at)
      "started_at"
  refuse_if
      (not (is_zero c.started_at)
        && not (is_zero c.completed_at)
        && before c.completed_at c.started_at)
      "completed_at"
