-- ===== src/Paid/Campaigns.antt =====
-- backend/services/paid_campaign_service.py: the owner's calls on campaigns.
use connextion_z_luna.Prelude.{
  ℕ, Bool, false, not, ◌&&◌, ◌||◌, ◌==◌, Option, none, some, is_none, any, str_eq, if◌then◌else◌,
}
use connextion_z_luna.Errors.{Error, Result, raise_if}
use connextion_z_luna.Exec.{Exec, gets, pure, lift, ◌>>=◌, ◌>>◌}
use connextion_z_luna.Paid.Model.{
  PaidCampaignStatus, PaidCampaign, Profile, User, is_active_account, is_published,
}
use connextion_z_luna.Paid.Targeting.{validate_targeting}
use connextion_z_luna.Paid.Configuration.{CampaignConfiguration, ValidConfiguration, validated}
use connextion_z_luna.Paid.Transitions.{
  is_status, campaign_is_active, transitions, check_configuration, check_times, configure,
  configured, check_requested, validated_if_any, or_current,
}
use connextion_z_luna.Paid.Database.{Database, get_owned, get_post, get_profile}
use connextion_z_luna.Paid.Writes.{required, insert_campaign, update_campaign_row}

unfoldable pub require_active_user : User → Result (Unit {0})
require_active_user user =
    raise_if (not (is_active_account user.status) || user.is_deleted)
      (Error.permission_error "Account is not active")

abbrev is_closed : Option Profile → Bool
is_closed none = false
is_closed (some p) = p.private_account || p.is_deleted

unfoldable pub validate_post : User → ℕ → Exec Database (Unit {0})
validate_post owner post_id = do
  found ← gets (get_post post_id)
  post ← required (Error.value_error "Post not found") found
  lift (
      raise_if (not (post.user_id == owner.id))
        (Error.permission_error "Only the post author can promote this post"))
  lift (
      raise_if
        (not (is_published post.status)
          || not (str_eq post.moderation_status "approved")
          || not (str_eq post.visibility "public"))
        (Error.value_error "Only approved, published, public posts can be promoted"))
  profile ← gets (get_profile owner.id)
  lift (
      raise_if (is_closed profile)
        (Error.value_error "Private or deleted profiles cannot promote posts"))

-- The campaign that `create_campaign` adds; the flush gives the identifier and the time.
unfoldable pub new_campaign : User → ℕ → ValidConfiguration → PaidCampaign
new_campaign owner post_id config = record {
  id = 0;
  owner_id = owner.id;
  post_id = post_id;
  status = PaidCampaignStatus.draft;
  start_at = config.start_at;
  end_at = config.end_at;
  currency = config.currency;
  budget_minor_units = config.budget_minor_units;
  spent_minor_units = 0;
  impressions_delivered = 0;
  reach_delivered = 0;
  max_impressions = config.max_impressions;
  max_reach = config.max_reach;
  frequency_cap = config.frequency_cap;
  frequency_window_seconds = config.frequency_window_seconds;
  targeting = config.targeting;
  created_at = 0;
}

unfoldable pub create_campaign : User → ℕ → CampaignConfiguration → Exec Database PaidCampaign
unfolding require_active_user validate_post new_campaign
create_campaign owner post_id configuration = do
  lift (require_active_user owner)
  config ← lift (validated configuration)
  validate_post owner post_id
  insert_campaign (new_campaign owner post_id config)

unfoldable pub get_campaign : User → ℕ → Exec Database PaidCampaign
unfolding require_active_user
get_campaign owner campaign_id = do
  lift (require_active_user owner)
  found ← gets (get_owned campaign_id owner.id)
  required (Error.value_error "Campaign not found") found

-- The guards on an active campaign, as it would be.
unfoldable pub check_activation : User → PaidCampaign → ℕ → Exec Database (Unit {0})
unfolding validate_post campaign_is_active
check_activation owner proposed moment = do
  config ← lift (validate_targeting proposed.targeting)
  lift (
      raise_if (not (campaign_is_active proposed moment)) (
        Error.value_error "Campaign cannot activate outside its window or with exhausted capacity"))
  validate_post owner proposed.post_id

unfoldable pub check_proposed : User → PaidCampaign → ℕ → Exec Database (Unit {0})
unfolding check_activation check_times
check_proposed owner proposed moment = do
  if is_status proposed.status PaidCampaignStatus.active
      then check_activation owner proposed moment
      else pure tt
  lift (check_times proposed moment)

unfoldable pub update_campaign :
    User
    → ℕ
    → Option CampaignConfiguration
    → Option PaidCampaignStatus
    → ℕ
    → Exec Database PaidCampaign
unfolding require_active_user check_configuration transitions check_proposed configure
update_campaign owner campaign_id configuration status moment = do
  lift (require_active_user owner)
  found ← gets (get_owned campaign_id owner.id)
  campaign ← required (Error.value_error "Campaign not found") found
  lift (
      raise_if (is_none configuration && is_none status)
        (Error.value_error "No campaign update specified"))
  config ← lift (validated_if_any configuration)
  lift (check_requested campaign config)
  let next_status = or_current status campaign
  lift (
      raise_if
        (not (is_status next_status campaign.status)
          && not (any (is_status next_status) (transitions campaign.status)))
        (Error.value_error "Invalid campaign status transition"))
  let proposed = record (configured config campaign) { status = next_status }
  check_proposed owner proposed moment
  update_campaign_row proposed
