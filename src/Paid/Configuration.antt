-- ===== src/Paid/Configuration.antt =====
-- CampaignConfiguration of backend/services/paid_campaign_service.py: as an owner asks for it, with
-- integers of any sign and times that may lack a timezone, and as it is once validated.
use connextion_z_luna.Prelude.{
  ℕ, ℤ, pos, negsuc, String, Bool, true, false, not, leb, is_between, Option, none, some, is_none,
  is_currency_code,
}
use connextion_z_luna.Errors.{Error, Result, ok, err, ◌>>=◌, ◌>>◌, raise_if, message}
use connextion_z_luna.Paid.Model.{Targeting}
use connextion_z_luna.Paid.Targeting.{validate_targeting}

abbrev pub max_campaign_integer : ℕ
max_campaign_integer = 2147483647

-- A datetime: a moment in UTC, or a naive one, which has no offset.
pub data Datetime : Type 0 where
  aware naive : ℕ → Datetime

abbrev is_naive : Datetime → Bool
is_naive (aware t) = false
is_naive (naive t) = true

-- A naive time counts as UTC.
abbrev pub utc_time : Datetime → ℕ
utc_time (aware t) = t
utc_time (naive t) = t

pub record CampaignConfiguration : Type 0 where
  pub start_at : Datetime
  pub end_at : Datetime
  pub budget_minor_units : ℤ
  pub currency : String
  pub max_impressions : Option ℤ
  pub max_reach : Option ℤ
  pub frequency_cap : Option ℤ
  pub frequency_window_seconds : Option ℤ
  pub targeting : Targeting

pub record ValidConfiguration : Type 0 where
  pub start_at : ℕ
  pub end_at : ℕ
  pub budget_minor_units : ℕ
  pub currency : String
  pub max_impressions : Option ℕ
  pub max_reach : Option ℕ
  pub frequency_cap : Option ℕ
  pub frequency_window_seconds : Option ℕ
  pub targeting : Targeting

unfoldable pub positive_int : String → ℤ → Result ℕ
positive_int name (negsuc n) =
    err (Error.value_error (message "" name " must be a positive 32-bit integer"))
positive_int name (pos n) = elim (is_between 1 max_campaign_integer (pos n)) [
  | true ↦ ok n
  | false ↦ err (Error.value_error (message "" name " must be a positive 32-bit integer"))
]

unfoldable pub optional_int : String → Option ℤ → Result (Option ℕ)
unfolding positive_int
optional_int name none = ok none
optional_int name (some n) = positive_int name n >>= (λ valid. ok (some valid))

-- `a != b`.
abbrev differ : Bool → Bool → Bool
differ true b = not b
differ false b = b

-- `validated`. Aware times compare as their moments.
unfoldable pub validated : CampaignConfiguration → Result ValidConfiguration
unfolding optional_int is_currency_code
validated c = do
  raise_if (is_naive c.start_at) (Error.value_error "start_at must include a timezone")
  raise_if (is_naive c.end_at) (Error.value_error "end_at must include a timezone")
  raise_if (leb (utc_time c.end_at) (utc_time c.start_at))
      (Error.value_error "Campaign end must be after start")
  budget ← positive_int "budget_minor_units" c.budget_minor_units
  impressions ← optional_int "max_impressions" c.max_impressions
  reach ← optional_int "max_reach" c.max_reach
  cap ← optional_int "frequency_cap" c.frequency_cap
  window ← optional_int "frequency_window_seconds" c.frequency_window_seconds
  raise_if (not (is_currency_code c.currency))
      (Error.value_error "Currency must be a three-letter uppercase code")
  raise_if (differ (is_none cap) (is_none window))
      (Error.value_error "Frequency cap and window must be specified together")
  targeting ← validate_targeting c.targeting
  ok (record {
    start_at = utc_time c.start_at;
    end_at = utc_time c.end_at;
    budget_minor_units = budget;
    currency = c.currency;
    max_impressions = impressions;
    max_reach = reach;
    frequency_cap = cap;
    frequency_window_seconds = window;
    targeting = targeting;
  })
