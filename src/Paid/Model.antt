-- ===== src/Paid/Model.antt =====
-- The rows of backend/app/models/paid_campaign.py and backend/app/models/paid_delivery.py, and the
-- columns of users, profiles, posts, blocks and mutes that the paid services read. A time is a
-- number of microseconds, in UTC.
use connextion_z_luna.Prelude.{ℕ, String, Bool, true, false, Option, List}

pub data PaidCampaignStatus : Type 0 where
  draft scheduled active paused exhausted completed cancelled : PaidCampaignStatus

pub data AccountStatus : Type 0 where
  active suspended banned pending_verification : AccountStatus

pub data ContentStatus : Type 0 where
  draft published archived flagged removed scheduled : ContentStatus

-- An element of a JSON list. Of a value that is no text, the code asks only that it is none.
pub data Element : Type 0 where
  text : String → Element
  not_text : Element

-- A JSON value where a list is expected.
pub data Tags : Type 0 where
  list : List Element → Tags
  not_list : Tags

-- A value where a JSON object is expected: its keys with their values.
pub data Targeting : Type 0 where
  absent : Targeting
  not_object : Targeting
  object : List (String × Tags) → Targeting

pub record PaidCampaign : Type 0 where
  pub id : ℕ
  pub owner_id : ℕ
  pub post_id : ℕ
  pub status : PaidCampaignStatus
  pub start_at : ℕ
  pub end_at : ℕ
  pub currency : String
  pub budget_minor_units : ℕ
  pub spent_minor_units : ℕ
  pub impressions_delivered : ℕ
  pub reach_delivered : ℕ
  pub max_impressions : Option ℕ
  pub max_reach : Option ℕ
  pub frequency_cap : Option ℕ
  pub frequency_window_seconds : Option ℕ
  pub targeting : Targeting
  pub created_at : ℕ

pub record PaidDelivery : Type 0 where
  pub id : ℕ
  pub campaign_id : ℕ
  pub viewer_id : ℕ
  pub post_id : ℕ
  pub selected_at : ℕ
  pub impressed_at : Option ℕ

pub record PaidInteractionContext : Type 0 where
  pub delivery_id : ℕ
  pub viewer_id : ℕ
  pub post_id : ℕ
  pub token_hash : String
  pub expires_at : ℕ
  pub consumed_at : Option ℕ

pub record User : Type 0 where
  pub id : ℕ
  pub status : AccountStatus
  pub is_deleted : Bool

pub record Profile : Type 0 where
  pub user_id : ℕ
  pub private_account : Bool
  pub is_deleted : Bool
  pub tags : Tags

pub record Post : Type 0 where
  pub id : ℕ
  pub user_id : ℕ
  pub status : ContentStatus
  pub moderation_status : String
  pub visibility : String
  pub is_deleted : Bool

-- `PaidCampaignStatus` and its copies compare by `==`.
abbrev pub status_code : PaidCampaignStatus → ℕ
status_code PaidCampaignStatus.draft = 0
status_code PaidCampaignStatus.scheduled = 1
status_code PaidCampaignStatus.active = 2
status_code PaidCampaignStatus.paused = 3
status_code PaidCampaignStatus.exhausted = 4
status_code PaidCampaignStatus.completed = 5
status_code PaidCampaignStatus.cancelled = 6

abbrev pub is_active_account : AccountStatus → Bool
is_active_account AccountStatus.active = true
is_active_account _ = false

abbrev pub is_published : ContentStatus → Bool
is_published ContentStatus.published = true
is_published _ = false
