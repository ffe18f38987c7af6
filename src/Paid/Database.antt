-- ===== src/Paid/Database.antt =====
-- The tables behind the paid services, with the queries of
-- backend/repositories/paid_campaign_repository.py, paid_delivery_repository.py,
-- paid_impression_history_repository.py, and those of other repositories that the services make.
use connextion_z_luna.Prelude.{
  ℕ, ℤ, pos, Bool, false, not, ◌&&◌, ◌||◌, ltb, leb, ◌==◌, Option, none, some, is_some, if_some,
  List, map, any, find, filter, count, take, count_distinct, sorted_by, str_eq, if◌then◌else◌,
}
use connextion_z_luna.Errors.{Error, Result, ok, err, ◌>>◌, raise_if}
use connextion_z_luna.Paid.Model.{
  PaidCampaign, PaidDelivery, PaidInteractionContext, User, Profile, Post, status_code,
  is_active_account, is_published,
}

-- A block or a mute is a pair: who blocks, and who is blocked.
pub record Database : Type 0 where
  pub is_postgresql : Bool
  pub campaigns : List PaidCampaign
  pub deliveries : List PaidDelivery
  pub contexts : List PaidInteractionContext
  pub users : List User
  pub profiles : List Profile
  pub posts : List Post
  pub blocks : List (ℕ × ℕ)
  pub mutes : List (ℕ × ℕ)
  pub now : ℕ
  pub new_id : ℕ

unfoldable pub get_owned : ℕ → ℕ → Database → Option PaidCampaign
get_owned campaign_id owner_id s =
    find (λ c. c.id == campaign_id && c.owner_id == owner_id) s.campaigns

unfoldable pub get_user : ℕ → Database → Option User
get_user user_id s = find (λ u. u.id == user_id) s.users

-- `PostRepository.get_by_id`, without the posts that are deleted.
unfoldable pub get_post : ℕ → Database → Option Post
get_post post_id s = find (λ p. p.id == post_id && not p.is_deleted) s.posts

-- `ProfileRepository.get_by_user_id`.
unfoldable pub get_profile : ℕ → Database → Option Profile
get_profile user_id s = find (λ p. p.user_id == user_id) s.profiles

-- `creator_id in get_hidden_creator_ids(viewer_id, [creator_id])`.
unfoldable pub is_hidden : ℕ → ℕ → Database → Bool
is_hidden viewer_id creator_id s =
    any (λ b. b.0 == viewer_id && b.1 == creator_id) s.blocks
    || any (λ b. b.1 == viewer_id && b.0 == creator_id) s.blocks
    || any (λ m. m.0 == viewer_id && m.1 == creator_id) s.mutes

-- The joins of `get_eligible` with the post, its author and the author's profile.
unfoldable pub is_promotable : PaidCampaign → Database → Bool
unfolding get_profile
is_promotable c s =
    any
      (λ p.
        p.id == c.post_id
        && p.user_id == c.owner_id
        && not p.is_deleted
        && is_published p.status
        && str_eq p.moderation_status "approved"
        && str_eq p.visibility "public")
      s.posts
    && any (λ u. u.id == c.owner_id && not u.is_deleted && is_active_account u.status) s.users
    && if_some (get_profile c.owner_id s) (λ p. not p.is_deleted && not p.private_account)

-- The conditions of `get_eligible` on the campaign's own columns.
unfoldable pub is_deliverable : ℕ → PaidCampaign → Bool
is_deliverable now c =
    status_code c.status == 2
    && leb c.start_at now
    && ltb now c.end_at
    && ltb c.spent_minor_units c.budget_minor_units
    && if_some c.max_impressions (ltb c.impressions_delivered)
    && if_some c.max_reach (ltb c.reach_delivered)

-- `ORDER BY created_at, id`.
unfoldable pub is_created_before : PaidCampaign → PaidCampaign → Bool
is_created_before c d =
    ltb c.created_at d.created_at || (c.created_at == d.created_at && ltb c.id d.id)

-- `get_eligible`, for the campaigns that pass `wanted`: one identifier, some, or all.
unfoldable pub get_eligible : ℕ → ℕ → (ℕ → Bool) → Database → Result (List PaidCampaign)
unfolding is_deliverable is_promotable is_created_before sorted_by
get_eligible now limit wanted s =
    if leb 1 limit && leb limit 100
    then ok (
        take limit (
          sorted_by is_created_before
            (filter (λ c. wanted c.id && is_deliverable now c && is_promotable c s) s.campaigns)))
    else err (Error.value_error "Paid candidate limit must be between 1 and 100")

-- The deliveries of a campaign that count as impressions.
unfoldable pub is_impression : ℕ → PaidDelivery → Bool
is_impression campaign_id d = d.campaign_id == campaign_id && is_some d.impressed_at

abbrev is_in : ℕ → ℕ → Option ℕ → Bool
is_in start_at end_at none = false
is_in start_at end_at (some at) = leb start_at at && leb at end_at

unfoldable pub is_viewed : ℕ → ℕ → ℕ → PaidDelivery → Bool
is_viewed viewer_id start_at end_at d =
    d.viewer_id == viewer_id && is_in start_at end_at d.impressed_at

-- The columns `total`, `reach` and `viewer_count`.
unfoldable pub total : ℕ → List PaidDelivery → ℕ
unfolding is_impression
total campaign_id deliveries = count (is_impression campaign_id) deliveries

unfoldable pub reach : ℕ → List PaidDelivery → ℕ
unfolding is_impression
reach campaign_id deliveries =
    count_distinct (map (λ d. d.viewer_id) (filter (is_impression campaign_id) deliveries))

unfoldable pub viewer_count : ℕ → ℕ → ℕ → ℕ → List PaidDelivery → ℕ
unfolding is_impression is_viewed
viewer_count viewer_id campaign_id start_at end_at deliveries =
    count (λ d. is_impression campaign_id d && is_viewed viewer_id start_at end_at d) deliveries

-- The row, if there is one, with its columns tested.
abbrev pub is_complete : Option PaidCampaign → List PaidDelivery → Bool
is_complete none deliveries = false
is_complete (some c) deliveries =
    total c.id deliveries == c.impressions_delivered && reach c.id deliveries == c.reach_delivered

unfoldable pub count_paid_impressions : ℕ → ℕ → ℕ → ℕ → Database → Result ℤ
unfolding total reach viewer_count
count_paid_impressions viewer_id campaign_id start_at end_at s = do
  raise_if (ltb end_at start_at)
      (Error.value_error "Paid history requires an ordered timezone-aware window")
  raise_if (not (is_complete (find (λ c. c.id == campaign_id) s.campaigns) s.deliveries))
      (Error.history_unavailable "Paid delivery history is incomplete or inconsistent")
  ok (pos (viewer_count viewer_id campaign_id start_at end_at s.deliveries))
