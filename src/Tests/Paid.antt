-- ===== src/Tests/Paid.antt =====
-- Runs of the paid services of backend/services, and an instance of each theorem on them.
mod Pages
mod Instances
use connextion_z_luna.Prelude.{
  ℕ, pos, String, true, false, ◌≡◌, refl, none, some, List, [], ◌∷◌, ◌+◌, is_currency_code,
  sorted_by, strip, str_len, str_ltb, is_upper_ascii, insert_by, lstrip, rstrip, all_chars,
  is_space, is_blank,
}
use connextion_z_luna.Errors.{message, ok, is_ok}
use connextion_z_luna.Exec.{◌>>=◌}
use connextion_z_luna.Payment.Constraints.{is_upper}
use connextion_z_luna.Paid.Model.{
  PaidCampaignStatus, AccountStatus, ContentStatus, PaidCampaign, PaidDelivery, User, Profile, Post,
  text, list, object,
}
use connextion_z_luna.Paid.Configuration.{CampaignConfiguration, aware}
use connextion_z_luna.Paid.Database.{Database}
use connextion_z_luna.Paid.Delivery.{PaidCandidate, receipt}
use connextion_z_luna.Paid.Calls.{Call, Event, served}
use connextion_z_luna.Paid.Constraints.{
  campaign_constraints, delivery_constraints, context_constraints,
}
use connextion_z_luna.Paid.Targeting.{
  casefold_char, casefold, topic_of, normalize, validate_tags, validate_targeting, viewer_topics,
  intersects, targeting_matches,
}
use connextion_z_luna.Paid.Delivery.{
  stored_viewer, validate, select_locked, select_candidate, impress, record_selection,
  record_impression,
}
use connextion_z_luna.Paid.Configuration.{positive_int, optional_int, validated}
use connextion_z_luna.Paid.Calls.{run, serve, handle, history}
use connextion_z_luna.Paid.Writes.{
  begin_nested, require_postgresql, lock_campaign, find_selection, get_selection,
  impressed_for_engagement, insert_campaign, replace_campaign, update_campaign_row, is_insertable,
  insert_delivery, replace_delivery, update_delivery, create_selection, previously_reached, counted,
  count_impression, fits_columns, record_locked,
}
use connextion_z_luna.Paid.Eligibility.{viewer_tags, evaluate_gates, evaluate, evaluate_eligibility}
use connextion_z_luna.Paid.Frequency.{decide, check_window, check_pair, check}
use connextion_z_luna.Paid.Transitions.{
  campaign_is_expired, campaign_is_exhausted, campaign_is_active, transitions, configure,
  check_configuration, validated_if_any, check_times,
}
use connextion_z_luna.Paid.Database.{
  get_owned, get_user, get_post, get_profile, is_hidden, is_promotable, is_deliverable,
  is_created_before, get_eligible, is_impression, is_viewed, total, reach, viewer_count,
  count_paid_impressions,
}
use connextion_z_luna.Paid.Contexts.{
  context_ttl, insert_context, replace_context, update_context, find_context, is_usable, mark,
  issue_selected, issue, consume_issued, consume,
}
use connextion_z_luna.Paid.Campaigns.{
  require_active_user, validate_post, new_campaign, create_campaign, check_activation,
  check_proposed, update_campaign,
}

abbrev pub time : ℕ
time = 10000000000

abbrev pub owner : User
owner = record { id = 10; status = AccountStatus.active; is_deleted = false }

abbrev pub viewer : User
viewer = record { id = 20; status = AccountStatus.active; is_deleted = false }

abbrev owner_profile : Profile
owner_profile = record { user_id = 10; private_account = false; is_deleted = false; tags = list [] }

abbrev viewer_profile : Profile
viewer_profile = record {
  user_id = 20;
  private_account = false;
  is_deleted = false;
  tags = list (text " Music " ∷ []);
}

abbrev pub post : Post
post = record {
  id = 5;
  user_id = 10;
  status = ContentStatus.published;
  moderation_status = "approved";
  visibility = "public";
  is_deleted = false;
}

-- A campaign for people who like music, three impressions at most, and two an hour for a viewer.
abbrev configuration : CampaignConfiguration
configuration = record {
  start_at = aware 9000000000;
  end_at = aware 20000000000;
  budget_minor_units = pos 5000;
  currency = "USD";
  max_impressions = some (pos 3);
  max_reach = none;
  frequency_cap = some (pos 2);
  frequency_window_seconds = some (pos 3600);
  targeting = object (("tags", list (text "MUSIC" ∷ [])) ∷ []);
}

abbrev pub before : Database
before = record {
  is_postgresql = true;
  campaigns = [];
  deliveries = [];
  contexts = [];
  users = owner ∷ viewer ∷ [];
  profiles = owner_profile ∷ viewer_profile ∷ [];
  posts = post ∷ [];
  blocks = [];
  mutes = [];
  now = time;
  new_id = 1;
}

-- The campaign is made and activated, and the post is selected and impressed for the viewer, who
-- engages with it.
abbrev pub events : List Event
events =
    served (Call.creating owner 5 configuration)
    ∷ served (Call.updating owner 1 none (some PaidCampaignStatus.active) time)
    ∷ served (Call.selecting viewer (record { post_id = 5; paid_campaign_id = 1 }))
    ∷ served (Call.recording viewer 2)
    ∷ served (Call.issuing 20 2 "token")
    ∷ served (Call.consuming "token" 20 5 2)
    ∷ []

abbrev pub campaign : PaidCampaign
campaign = record {
  id = 1;
  owner_id = 10;
  post_id = 5;
  status = PaidCampaignStatus.active;
  start_at = 9000000000;
  end_at = 20000000000;
  currency = "USD";
  budget_minor_units = 5000;
  spent_minor_units = 0;
  impressions_delivered = 0;
  reach_delivered = 0;
  max_impressions = some 3;
  max_reach = none;
  frequency_cap = some 2;
  frequency_window_seconds = some 3600;
  targeting = object (("tags", list (text "music" ∷ [])) ∷ []);
  created_at = time;
}

abbrev pub selection : PaidDelivery
selection = record {
  id = 2;
  campaign_id = 1;
  viewer_id = 20;
  post_id = 5;
  selected_at = time;
  impressed_at = none;
}

abbrev pub impression : PaidDelivery
impression = record selection { impressed_at = some time }

-- The campaign once the impression is counted.
abbrev pub counted_campaign : PaidCampaign
counted_campaign = record campaign { impressions_delivered = 1; reach_delivered = 1 }

-- The tables after the selection, and after its impression.
abbrev pub selected_tables : Database
selected_tables = record before {
  campaigns = campaign ∷ [];
  deliveries = selection ∷ [];
  new_id = 3;
}

abbrev pub impressed_tables : Database
impressed_tables = record selected_tables {
  campaigns = counted_campaign ∷ [];
  deliveries = impression ∷ [];
}

abbrev pub digest : String → String
digest token = token

pub campaign_after : (history digest events before).campaigns ≡ counted_campaign ∷ []
unfolding campaign_constraints delivery_constraints context_constraints casefold_char casefold
    topic_of normalize validate_tags validate_targeting viewer_topics intersects targeting_matches
    stored_viewer validate select_locked select_candidate impress record_selection record_impression
    positive_int optional_int validated run serve handle history begin_nested require_postgresql
    lock_campaign find_selection get_selection impressed_for_engagement insert_campaign
    replace_campaign update_campaign_row is_insertable insert_delivery replace_delivery
    update_delivery create_selection previously_reached counted fits_columns count_impression
    record_locked viewer_tags evaluate_gates evaluate evaluate_eligibility decide check_window
    check_pair check campaign_is_expired campaign_is_exhausted campaign_is_active transitions
    configure check_configuration validated_if_any check_times get_owned get_user get_post
    get_profile is_hidden is_promotable is_deliverable is_created_before get_eligible is_impression
    is_viewed total reach viewer_count count_paid_impressions insert_context replace_context
    update_context find_context is_usable mark issue_selected issue consume_issued consume
    require_active_user validate_post new_campaign create_campaign check_activation check_proposed
    update_campaign is_currency_code sorted_by strip str_len str_ltb is_upper ◌>>=◌ is_upper_ascii
    insert_by lstrip rstrip message all_chars is_space is_blank
campaign_after = refl

-- The tables with a context of the impression.
abbrev pub issued_tables : Database
issued_tables = record impressed_tables {
  contexts =
      record {
        delivery_id = 2;
        viewer_id = 20;
        post_id = 5;
        token_hash = "token";
        expires_at = time + context_ttl;
        consumed_at = none;
      }
      ∷ [];
}

pub consume_returns : is_ok (consume digest "token" 20 5 2 issued_tables).0 ≡ true
unfolding consume consume_issued require_postgresql begin_nested impressed_for_engagement
    find_context is_usable update_context context_constraints replace_context str_len all_chars
    ◌>>=◌ mark
consume_returns = refl

pub impression_returns :
    record_impression viewer 2 selected_tables ≡ (ok (receipt impression), impressed_tables)
unfolding campaign_constraints delivery_constraints casefold_char casefold topic_of normalize
    validate_tags validate_targeting viewer_topics intersects targeting_matches stored_viewer
    validate impress record_selection record_impression begin_nested require_postgresql
    lock_campaign find_selection get_selection replace_delivery update_delivery previously_reached
    counted fits_columns count_impression record_locked viewer_tags evaluate_gates evaluate
    evaluate_eligibility decide check_window check_pair check campaign_is_expired
    campaign_is_exhausted campaign_is_active get_user get_profile is_hidden is_promotable
    is_deliverable is_created_before get_eligible is_impression is_viewed total reach viewer_count
    count_paid_impressions require_active_user sorted_by strip str_len str_ltb is_upper ◌>>=◌
    is_upper_ascii insert_by lstrip rstrip all_chars is_space
impression_returns = refl
