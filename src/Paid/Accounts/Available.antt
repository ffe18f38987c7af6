-- ===== src/Paid/Accounts/Available.antt =====
-- The history of impressions is complete, so a count of it is available.
use connextion_z_luna.Prelude.{
  ℕ, pos, String, true, false, ◌≡◌, ◌==◌, ltb, some, List, [], find, arith,
}
use connextion_z_luna.Errors.{ok}
use connextion_z_luna.Paid.Model.{PaidCampaign, PaidDelivery}
use connextion_z_luna.Paid.Database.{Database, viewer_count, is_complete, count_paid_impressions}
use connextion_z_luna.Paid.Calls.{Event, history}
use connextion_z_luna.Paid.Accounts.{IsAccounted}
use connextion_z_luna.Paid.Accounts.Rows.{All-find}
use connextion_z_luna.Paid.Accounts.History.{history-IsAccounted}

accounted-is_complete :
    (deliveries : List PaidDelivery) (c : PaidCampaign)
    → IsAccounted deliveries c
    → is_complete (some c) deliveries ≡ true
accounted-is_complete deliveries c a = ground (arith, a.impressions, a.reached)

available :
    (viewer_id campaign_id start_at end_at : ℕ) (s : Database) (c : PaidCampaign)
    → IsAccounted s.deliveries c
    → find (λ x. x.id == campaign_id) s.campaigns ≡ some c
    → ltb end_at start_at ≡ false
    → count_paid_impressions viewer_id campaign_id start_at end_at s
      ≡ ok (pos (viewer_count viewer_id campaign_id start_at end_at s.deliveries))
unfolding count_paid_impressions
available viewer_id campaign_id start_at end_at s c a found ordered =
    rw (ordered, found, accounted-is_complete s.deliveries c a)

-- From empty tables of campaigns and deliveries, after any calls and any changes elsewhere, counting
-- the impressions of a viewer returns their number, for every campaign that exists and every window
-- that does not end before it starts: the history is never found incomplete.
pub history-count_paid_impressions :
    (digest : String → String) (events : List Event) (s : Database)
    (viewer_id campaign_id start_at end_at : ℕ) (c : PaidCampaign)
    → s.campaigns ≡ []
    → s.deliveries ≡ []
    → find (λ x. x.id == campaign_id) (history digest events s).campaigns ≡ some c
    → ltb end_at start_at ≡ false
    → count_paid_impressions viewer_id campaign_id start_at end_at (history digest events s)
      ≡ ok (
          pos (
            viewer_count viewer_id campaign_id start_at end_at
              (history digest events s).deliveries))
history-count_paid_impressions digest events s viewer_id campaign_id start_at end_at c nc nd found
      ordered =
    available viewer_id campaign_id start_at end_at (history digest events s) c
      (All-find (IsAccounted (history digest events s).deliveries) _
        (history digest events s).campaigns c (history-IsAccounted digest events s nc nd) found)
      found ordered
