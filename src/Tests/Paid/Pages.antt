-- ===== src/Tests/Paid/Pages.antt =====
-- Runs of the candidate pages.
use connextion_z_luna.Prelude.{
  length, ℕ, ◌≡◌, refl, none, some, List, [], ◌∷◌, sorted_by, strip, str_len, str_ltb, insert_by,
  lstrip, rstrip, is_space,
}
use connextion_z_luna.Errors.{ok}
use connextion_z_luna.Python.Uuid.{hex}
use connextion_z_luna.Paid.Cursor.{encode}
use connextion_z_luna.Paid.Ranking.{
  rank_eligible, keyed, key, key_lt, fraction, fraction_lt, fraction_eq, progress_to, subtract,
  negate,
}
use connextion_z_luna.Paid.Candidates.{
  PaidCandidatePage, get_candidate_page, first_page, get_ranked_candidates, unique_posts,
}
use connextion_z_luna.Paid.Model.{PaidCampaign}
use connextion_z_luna.Paid.Database.{Database}
use connextion_z_luna.Paid.Targeting.{
  casefold_char, casefold, topic_of, normalize, validate_tags, validate_targeting, viewer_topics,
  intersects, targeting_matches,
}
use connextion_z_luna.Paid.Eligibility.{
  get_eligible_campaigns, keep_eligible, viewer_tags, evaluate_gates, evaluate,
}
use connextion_z_luna.Paid.Frequency.{decide, check_window, check_pair, check}
use connextion_z_luna.Paid.Transitions.{
  campaign_is_expired, campaign_is_exhausted, campaign_is_active,
}
use connextion_z_luna.Paid.Database.{
  get_profile, is_hidden, is_promotable, is_deliverable, is_created_before, get_eligible,
  is_impression, is_viewed, total, reach, viewer_count, count_paid_impressions,
}
use connextion_z_luna.Paid.Campaigns.{require_active_user}
use connextion_z_luna.Tests.Paid.{time, viewer, post, campaign, counted_campaign, impressed_tables}

-- The tables with another campaign, for another post.
abbrev pub rival : PaidCampaign
rival = record campaign { id = 4; post_id = 6 }

abbrev pub rival_tables : Database
rival_tables = record impressed_tables {
  campaigns = counted_campaign ∷ rival ∷ [];
  posts = post ∷ (record post { id = 6 }) ∷ [];
}

-- A signature of the right form.
abbrev pub signature : List ℕ → List ℕ
signature body = hex 64 (length body)

abbrev pub page : PaidCandidatePage
page = record {
  items = (record { post_id = 6; paid_campaign_id = 4 }) ∷ [];
  next_cursor =
      some
        (encode signature (record { identities = (4, 6) ∷ (1, 5) ∷ []; last_campaign_id = 4 }) 20);
}

pub page_returns :
    get_candidate_page count_paid_impressions signature viewer none 1 time rival_tables ≡ ok page
unfolding get_candidate_page first_page get_ranked_candidates get_eligible_campaigns keep_eligible
    rank_eligible keyed key key_lt fraction fraction_lt fraction_eq progress_to subtract negate
    unique_posts require_active_user get_eligible is_deliverable is_promotable is_created_before
    sorted_by insert_by is_hidden viewer_tags get_profile evaluate targeting_matches
    campaign_is_active campaign_is_expired campaign_is_exhausted evaluate_gates check check_pair
    check_window decide count_paid_impressions total reach viewer_count is_impression is_viewed
    validate_targeting validate_tags normalize topic_of casefold casefold_char strip lstrip rstrip
    is_space str_len str_ltb viewer_topics intersects
page_returns = refl
