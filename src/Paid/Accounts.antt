-- ===== src/Paid/Accounts.antt =====
-- The counters of a campaign against the deliveries that they count.
pub mod Rows
pub mod Writes
pub mod Recorded
pub mod Steps
pub mod History
pub mod Window
pub mod Available
use connextion_z_luna.Prelude.{ℕ, Bool, true, ◌≡◌, ◌==◌, any, List, All}
use connextion_z_luna.Prelude.Rows.{unique}
use connextion_z_luna.Paid.Model.{PaidCampaign, PaidDelivery}
use connextion_z_luna.Paid.Constraints.{campaign_constraints}
use connextion_z_luna.Paid.Database.{Database, total, reach}

-- The counters of the row are the number of impressions and the number of viewers that the
-- deliveries show, and the row satisfies the constraints: no limit is passed.
pub record IsAccounted (deliveries : List PaidDelivery) (c : PaidCampaign) : Type 0 where
  pub impressions : c.impressions_delivered ≡ total c.id deliveries
  pub reached : c.reach_delivered ≡ reach c.id deliveries
  pub constrained : campaign_constraints c ≡ true

abbrev pub has_campaign : List PaidCampaign → PaidDelivery → Bool
has_campaign campaigns d = any (λ c. c.id == d.campaign_id) campaigns

-- Every campaign is accounted for, the deliveries have different identifiers, and the campaign of
-- each delivery exists.
pub record IsBalanced (s : Database) : Type 0 where
  pub accounted : All (IsAccounted s.deliveries) s.campaigns
  pub distinct : unique (λ d. d.id) s.deliveries ≡ true
  pub owned : All (λ d. has_campaign s.campaigns d ≡ true) s.deliveries
