-- ===== src/Paid/Delivery.antt =====
-- backend/services/paid_delivery_service.py.
use connextion_z_luna.Prelude.{
  ℕ, Bool, true, false, not, ◌||◌, ◌==◌, is_some, List, [], ◌∷◌, if◌then◌else◌,
}
use connextion_z_luna.Errors.{Error, Result, raise_if}
use connextion_z_luna.Exec.{Exec, gets, pure, lift, ◌>>=◌, ◌>>◌}
use connextion_z_luna.Paid.Model.{PaidCampaign, PaidDelivery, User}
use connextion_z_luna.Paid.Campaigns.{require_active_user}
use connextion_z_luna.Paid.Database.{
  Database, get_user, is_hidden, get_eligible, count_paid_impressions,
}
use connextion_z_luna.Paid.Eligibility.{eligible, evaluate_eligibility}
use connextion_z_luna.Paid.Writes.{
  begin_nested, require_postgresql, required, lock_campaign, get_selection, create_selection,
  record_locked,
}

pub record PaidCandidate : Type 0 where
  pub post_id : ℕ
  pub paid_campaign_id : ℕ

-- The fields that are the same for every receipt are left out.
pub record PaidImpressionReceipt : Type 0 where
  pub delivery_id : ℕ
  pub post_id : ℕ
  pub paid_campaign_id : ℕ

-- A read that may raise.
abbrev pub reading : {A : Type 0} → (Database → Result A) → Exec Database A
reading read s = (read s, s)

-- `_viewer`.
unfoldable pub stored_viewer : User → Exec Database User
unfolding require_active_user
stored_viewer viewer = do
  found ← gets (get_user viewer.id)
  stored ← required (Error.permission_error "Viewer not found") found
  lift (require_active_user stored)
  pure stored

abbrev is_nothing : List PaidCampaign → Bool
is_nothing [] = true
is_nothing (c ∷ rest) = false

-- `_validate`. The count is made for its errors only.
unfoldable pub validate : PaidCampaign → User → ℕ → Exec Database (Unit {0})
unfolding get_eligible is_hidden count_paid_impressions evaluate_eligibility
validate campaign viewer now = do
  found ← reading (get_eligible now 1 (λ id. id == campaign.id))
  hidden ← gets (is_hidden viewer.id campaign.owner_id)
  lift (
      raise_if (is_nothing found || hidden)
        (Error.value_error "Campaign or promoted content is not eligible for Paid delivery"))
  complete ← reading (count_paid_impressions viewer.id campaign.id campaign.start_at now)
  evaluation ← reading (evaluate_eligibility count_paid_impressions campaign viewer now)
  lift (
      raise_if (not (eligible evaluation))
        (Error.value_error "Viewer targeting or frequency is not eligible for Paid delivery"))

unfoldable pub select_locked : User → PaidCandidate → Exec Database ℕ
unfolding lock_campaign stored_viewer validate create_selection
select_locked viewer candidate = do
  campaign ← lock_campaign candidate.paid_campaign_id
  stored ← stored_viewer viewer
  lift (
      raise_if (not (candidate.post_id == campaign.post_id))
        (Error.value_error "Promoted post does not match the campaign"))
  now ← gets (λ s. s.now)
  validate campaign stored now
  selection ← create_selection campaign stored.id now
  pure selection.id

unfoldable pub select_candidate : User → PaidCandidate → Exec Database ℕ
unfolding require_postgresql begin_nested select_locked
select_candidate viewer candidate = do
  require_postgresql
  begin_nested (select_locked viewer candidate)

abbrev pub receipt : PaidDelivery → PaidImpressionReceipt
receipt d = record { delivery_id = d.id; post_id = d.post_id; paid_campaign_id = d.campaign_id }

-- The branch where the selection has no impression yet.
unfoldable pub impress : PaidCampaign → User → PaidDelivery → Exec Database PaidImpressionReceipt
unfolding validate record_locked
impress campaign stored selection = do
  now ← gets (λ s. s.now)
  validate campaign stored now
  recorded ← record_locked campaign selection now
  pure (receipt recorded)

unfoldable pub record_selection : User → ℕ → Exec Database PaidImpressionReceipt
unfolding lock_campaign get_selection stored_viewer impress
record_selection viewer delivery_id = do
  earlier ← get_selection delivery_id viewer.id
  campaign ← lock_campaign earlier.campaign_id
  selection ← get_selection delivery_id viewer.id
  lift (
      raise_if (not (selection.post_id == campaign.post_id))
        (Error.value_error "Promoted post does not match the campaign"))
  stored ← stored_viewer viewer
  if is_some selection.impressed_at
      then pure (receipt selection)
      else impress campaign stored selection

unfoldable pub record_impression : User → ℕ → Exec Database PaidImpressionReceipt
unfolding require_postgresql begin_nested record_selection
record_impression viewer delivery_id = do
  require_postgresql
  begin_nested (record_selection viewer delivery_id)
