-- ===== src/Paid/Eligibility.antt =====
-- backend/services/paid_campaign_service.py: who may see which campaign, read only. The reader of
-- the impressions is an argument, as it is in the source.
use connextion_z_luna.Prelude.{
  ℕ, Bool, not, ◌&&◌, Option, none, some, List, [], ◌∷◌, any, filter, if◌then◌else◌,
}
use connextion_z_luna.Errors.{Result, ok, ◌>>=◌, ◌>>◌}
use connextion_z_luna.Paid.Model.{PaidCampaign, Profile, User, Tags, not_list}
use connextion_z_luna.Paid.Targeting.{is_targeted, targeting_matches}
use connextion_z_luna.Paid.Transitions.{campaign_is_active}
use connextion_z_luna.Paid.Campaigns.{require_active_user}
use connextion_z_luna.Paid.Frequency.{
  FrequencyStatus, FrequencyEligibility, PaidImpressionHistoryReader, is_allowed, check,
}
use connextion_z_luna.Paid.Database.{Database, get_profile, is_hidden, get_eligible}

pub record PaidEligibility : Type 0 where
  pub campaign_eligible : Bool
  pub targeting_matches : Bool
  pub frequency : FrequencyEligibility

abbrev pub eligible : PaidEligibility → Bool
eligible e = e.campaign_eligible && e.targeting_matches && is_allowed e.frequency

abbrev pub unchecked : FrequencyEligibility
unchecked = record { status = FrequencyStatus.not_checked; impressions = none; reason = none }

abbrev tags_of : Option Profile → Tags
tags_of none = not_list
tags_of (some p) = if p.is_deleted then not_list else p.tags

unfoldable pub viewer_tags : User → List PaidCampaign → Database → Tags
viewer_tags viewer campaigns s =
    if any (λ c. is_targeted c.targeting) campaigns
    then tags_of (get_profile viewer.id s)
    else not_list

module _ (history : PaidImpressionHistoryReader) where
  -- The frequency is checked only where the campaign is active and its targeting matches.
  unfoldable pub evaluate_gates :
      PaidCampaign → User → ℕ → Database → Bool → Bool → Result PaidEligibility
  unfolding check
  evaluate_gates campaign viewer now s is_active matches =
      if is_active && matches
      then check history campaign viewer.id now s >>= (λ frequency. ok (record {
        campaign_eligible = is_active;
        targeting_matches = matches;
        frequency = frequency;
      }))
      else ok (record {
        campaign_eligible = is_active;
        targeting_matches = matches;
        frequency = unchecked;
      })

  -- `_evaluate_eligibility`.
  unfoldable pub evaluate : PaidCampaign → User → Tags → ℕ → Database → Result PaidEligibility
  unfolding campaign_is_active targeting_matches evaluate_gates
  evaluate campaign viewer tags now s = do
    matches ← targeting_matches campaign.targeting tags
    evaluate_gates campaign viewer now s (campaign_is_active campaign now) matches

  unfoldable pub evaluate_eligibility : PaidCampaign → User → ℕ → Database → Result PaidEligibility
  unfolding evaluate viewer_tags require_active_user
  evaluate_eligibility campaign viewer now s = do
    require_active_user viewer
    evaluate campaign viewer (viewer_tags viewer (campaign ∷ []) s) now s

  -- The loop over the visible campaigns.
  unfoldable pub keep_eligible :
      User → Tags → ℕ → Database → List PaidCampaign → Result (List PaidCampaign)
  unfolding evaluate
  keep_eligible viewer tags now s [] = ok []
  keep_eligible viewer tags now s (c ∷ rest) = evaluate c viewer tags now s >>= (λ e.
      keep_eligible viewer tags now s rest >>= (λ kept. ok (if eligible e then c ∷ kept else kept)))

  -- `_get_eligible_campaigns`.
  unfoldable pub get_eligible_campaigns :
      User → ℕ → ℕ → (ℕ → Bool) → Database → Result (List PaidCampaign)
  unfolding require_active_user get_eligible is_hidden viewer_tags keep_eligible
  get_eligible_campaigns viewer now limit wanted s = do
    require_active_user viewer
    campaigns ← get_eligible now limit wanted s
    let visible = filter (λ c. not (is_hidden viewer.id c.owner_id s)) campaigns
    keep_eligible viewer (viewer_tags viewer visible s) now s visible
