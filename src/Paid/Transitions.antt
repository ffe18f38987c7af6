-- ===== src/Paid/Transitions.antt =====
-- backend/services/paid_campaign_service.py: when a campaign is expired, exhausted and active, its
-- transitions, and what a new configuration may be.
use connextion_z_luna.Prelude.{
  ℕ, Bool, false, not, ◌&&◌, ◌||◌, ltb, leb, ◌==◌, Option, none, some, List, [], ◌∷◌, str_eq,
}
use connextion_z_luna.Errors.{Error, Result, ok, raise_if, ◌>>=◌, ◌>>◌}
use connextion_z_luna.Paid.Model.{PaidCampaignStatus, PaidCampaign, status_code}
use connextion_z_luna.Paid.Configuration.{CampaignConfiguration, ValidConfiguration, validated}

abbrev pub is_status : PaidCampaignStatus → PaidCampaignStatus → Bool
is_status a b = status_code a == status_code b

unfoldable pub campaign_is_expired : PaidCampaign → ℕ → Bool
campaign_is_expired c now = leb c.end_at now

-- A limit that is reached; no limit is never reached.
abbrev is_reached : Option ℕ → ℕ → Bool
is_reached none delivered = false
is_reached (some limit) delivered = leb limit delivered

unfoldable pub campaign_is_exhausted : PaidCampaign → Bool
campaign_is_exhausted c =
    leb c.budget_minor_units c.spent_minor_units
    || is_reached c.max_impressions c.impressions_delivered
    || is_reached c.max_reach c.reach_delivered

unfoldable pub campaign_is_active : PaidCampaign → ℕ → Bool
unfolding campaign_is_expired campaign_is_exhausted
campaign_is_active c now =
    is_status c.status PaidCampaignStatus.active
    && leb c.start_at now
    && not (campaign_is_expired c now)
    && not (campaign_is_exhausted c)

unfoldable pub transitions : PaidCampaignStatus → List PaidCampaignStatus
transitions PaidCampaignStatus.draft =
    PaidCampaignStatus.scheduled ∷ PaidCampaignStatus.active ∷ PaidCampaignStatus.cancelled ∷ []
transitions PaidCampaignStatus.scheduled =
    PaidCampaignStatus.active ∷ PaidCampaignStatus.paused ∷ PaidCampaignStatus.completed
    ∷ PaidCampaignStatus.cancelled ∷ []
transitions PaidCampaignStatus.active =
    PaidCampaignStatus.paused ∷ PaidCampaignStatus.exhausted ∷ PaidCampaignStatus.completed
    ∷ PaidCampaignStatus.cancelled ∷ []
transitions PaidCampaignStatus.paused =
    PaidCampaignStatus.scheduled ∷ PaidCampaignStatus.active ∷ PaidCampaignStatus.exhausted
    ∷ PaidCampaignStatus.completed ∷ PaidCampaignStatus.cancelled ∷ []
transitions PaidCampaignStatus.exhausted = []
transitions PaidCampaignStatus.completed = []
transitions PaidCampaignStatus.cancelled = []

-- The configuration of a campaign replaced.
unfoldable pub configure : ValidConfiguration → PaidCampaign → PaidCampaign
configure config c = record c {
  start_at = config.start_at;
  end_at = config.end_at;
  budget_minor_units = config.budget_minor_units;
  currency = config.currency;
  max_impressions = config.max_impressions;
  max_reach = config.max_reach;
  frequency_cap = config.frequency_cap;
  frequency_window_seconds = config.frequency_window_seconds;
  targeting = config.targeting;
}

abbrev is_below : Option ℕ → ℕ → Bool
is_below none consumed = false
is_below (some limit) consumed = ltb limit consumed

unfoldable pub check_configuration : PaidCampaign → ValidConfiguration → Result (Unit {0})
check_configuration c config = do
  raise_if
      (not (
        is_status c.status PaidCampaignStatus.draft
        || is_status c.status PaidCampaignStatus.paused))
      (Error.value_error "Only draft or paused campaign configuration can be edited")
  raise_if
      (not (str_eq config.currency c.currency)
        && (ltb 0 c.spent_minor_units || ltb 0 c.impressions_delivered))
      (Error.value_error "Currency cannot change after spending or delivery")
  raise_if
      (ltb config.budget_minor_units c.spent_minor_units
        || is_below config.max_impressions c.impressions_delivered
        || is_below config.max_reach c.reach_delivered)
      (Error.value_error "Campaign limits cannot be below consumed capacity")

-- The row with the requested configuration, if one is requested.
abbrev pub configured : Option ValidConfiguration → PaidCampaign → PaidCampaign
configured none c = c
configured (some config) c = configure config c

abbrev pub check_requested : PaidCampaign → Option ValidConfiguration → Result (Unit {0})
check_requested c none = ok tt
check_requested c (some config) = check_configuration c config

unfoldable pub validated_if_any : Option CampaignConfiguration → Result (Option ValidConfiguration)
validated_if_any none = ok none
validated_if_any (some configuration) = validated configuration >>= (λ config. ok (some config))

abbrev pub or_current : Option PaidCampaignStatus → PaidCampaign → PaidCampaignStatus
or_current none c = c.status
or_current (some status) c = status

-- The guards on the campaign as it would be, for the other states.
unfoldable pub check_times : PaidCampaign → ℕ → Result (Unit {0})
unfolding campaign_is_expired campaign_is_exhausted
check_times proposed moment = do
  raise_if (is_status proposed.status PaidCampaignStatus.scheduled && leb proposed.start_at moment)
      (Error.value_error "Scheduled campaign must start in the future")
  raise_if
      (is_status proposed.status PaidCampaignStatus.exhausted
        && not (campaign_is_exhausted proposed))
      (Error.value_error "Campaign capacity is not exhausted")
  raise_if
      (is_status proposed.status PaidCampaignStatus.completed
        && not (campaign_is_expired proposed moment))
      (Error.value_error "Campaign has not ended")
