-- ===== src/Paid/Steps.antt =====
-- The abstract machine behind the paid services: one constructor for each kind of change that a call
-- makes to the tables, with what the code has checked before it.
pub mod Campaigns
pub mod Delivery
pub mod Contexts
pub mod Calls
use connextion_z_luna.Prelude.{
  ℕ, Bool, true, false, ◌≡◌, not, ◌==◌, ◌||◌, ◌+◌, none, some, List, [], ◌∷◌, ◌++◌, map, all, any,
  find, ltb, if◌then◌else◌, str_eq,
}
use connextion_z_luna.Errors.{ok}
use connextion_z_luna.Paid.Model.{
  PaidCampaignStatus, PaidCampaign, PaidDelivery, PaidInteractionContext,
}
use connextion_z_luna.Paid.Constraints.{campaign_constraints}
use connextion_z_luna.Paid.Frequency.{FrequencyEligibility, is_allowed, check}
use connextion_z_luna.Paid.Transitions.{is_status, campaign_is_active, transitions}
use connextion_z_luna.Paid.Database.{Database, get_owned, is_hidden, count_paid_impressions}
use connextion_z_luna.Paid.Writes.{
  replace_campaign, replace_delivery, find_selection, previously_reached, counted,
}
use connextion_z_luna.Paid.Contexts.{find_context, replace_context}

-- A campaign as `create_campaign` makes it.
pub record IsNew (s : Database) (c : PaidCampaign) : Type 0 where
  pub constrained : campaign_constraints c ≡ true
  pub unused : any (λ d. d.id == c.id) s.campaigns ≡ false
  pub drafted : c.status ≡ PaidCampaignStatus.draft
  pub unimpressed : c.impressions_delivered ≡ 0
  pub unreached : c.reach_delivered ≡ 0
  pub unspent : c.spent_minor_units ≡ 0

-- What an update leaves as it is.
pub record IsSame (c d : PaidCampaign) : Type 0 where
  pub id : d.id ≡ c.id
  pub owner_id : d.owner_id ≡ c.owner_id
  pub post_id : d.post_id ≡ c.post_id
  pub spent_minor_units : d.spent_minor_units ≡ c.spent_minor_units
  pub impressions_delivered : d.impressions_delivered ≡ c.impressions_delivered
  pub reach_delivered : d.reach_delivered ≡ c.reach_delivered
  pub created_at : d.created_at ≡ c.created_at

abbrev pub is_editable : PaidCampaignStatus → Bool
is_editable status =
    is_status status PaidCampaignStatus.draft || is_status status PaidCampaignStatus.paused

-- The columns of a configuration.
pub record IsConfiguredAs (c d : PaidCampaign) : Type 0 where
  pub start_at : d.start_at ≡ c.start_at
  pub end_at : d.end_at ≡ c.end_at
  pub currency : d.currency ≡ c.currency
  pub budget_minor_units : d.budget_minor_units ≡ c.budget_minor_units
  pub max_impressions : d.max_impressions ≡ c.max_impressions
  pub max_reach : d.max_reach ≡ c.max_reach
  pub frequency_cap : d.frequency_cap ≡ c.frequency_cap
  pub frequency_window_seconds : d.frequency_window_seconds ≡ c.frequency_window_seconds
  pub targeting : d.targeting ≡ c.targeting

-- The change of a campaign by its owner.
pub record IsUpdate (c d : PaidCampaign) : Type 0 where
  pub same : IsSame c d
  pub constrained : campaign_constraints d ≡ true
  pub moved :
      (is_status d.status c.status || any (is_status d.status) (transitions c.status)) ≡ true
  pub configured : is_editable c.status ≡ false → IsConfiguredAs c d
  pub charged :
      (ltb 0 c.spent_minor_units || ltb 0 c.impressions_delivered) ≡ true
      → str_eq d.currency c.currency ≡ true

-- A selection whose impression may be recorded at the time of the session.
pub record IsImpressible (s : Database) (c : PaidCampaign) (d : PaidDelivery) : Type 0 where
  pub locked : find (λ x. x.id == c.id) s.campaigns ≡ some c
  pub selected : find_selection d.id d.viewer_id s.deliveries ≡ some d
  pub unimpressed : d.impressed_at ≡ none
  pub of_campaign : d.campaign_id ≡ c.id
  pub visible : is_hidden d.viewer_id c.owner_id s ≡ false
  pub is_active : campaign_is_active c s.now ≡ true
  pub frequency : FrequencyEligibility
  pub checked : check count_paid_impressions c d.viewer_id s.now s ≡ ok frequency
  pub permitted : is_allowed frequency ≡ true

abbrev pub impressed : ℕ → PaidDelivery → PaidDelivery
impressed now d = record d { impressed_at = some now }

abbrev pub reached_by : PaidCampaign → PaidDelivery → Database → Bool
reached_by c d s = previously_reached c.id d.viewer_id s.deliveries

abbrev pub count_up : Bool → ℕ → List PaidCampaign → List PaidCampaign
count_up reached id rows = map (λ x. if x.id == id then counted reached x else x) rows

pub data Step (s : Database) : Database → Type 0 where
  stay : Step s s
  created :
      (c : PaidCampaign)
      → IsNew s c
      → Step s (record s { campaigns = s.campaigns ++ c ∷ []; new_id = s.new_id + 1 })
  updated :
      (c d : PaidCampaign)
      → get_owned c.id c.owner_id s ≡ some c
      → IsUpdate c d
      → Step s (record s { campaigns = replace_campaign d s.campaigns })
  selected :
      (d : PaidDelivery)
      → d.impressed_at ≡ none
      → any (λ c. c.id == d.campaign_id) s.campaigns ≡ true
      → any (λ e. e.id == d.id) s.deliveries ≡ false
      → Step s (record s { deliveries = s.deliveries ++ d ∷ []; new_id = s.new_id + 1 })
  recorded :
      (c : PaidCampaign) (d : PaidDelivery)
      → IsImpressible s c d
      → all
          (λ x. not (x.id == c.id) || campaign_constraints (counted (reached_by c d s) x))
          s.campaigns
        ≡ true
      → Step s (record s {
        campaigns = count_up (reached_by c d s) c.id s.campaigns;
        deliveries = replace_delivery (impressed s.now d) s.deliveries;
      })
  issued :
      (x : PaidInteractionContext)
      → x.consumed_at ≡ none
      → any (λ y. y.delivery_id == x.delivery_id || str_eq y.token_hash x.token_hash) s.contexts
        ≡ false
      → Step s (record s { contexts = s.contexts ++ x ∷ [] })
  consumed :
      (x : PaidInteractionContext)
      → find_context x.delivery_id x.viewer_id x.post_id x.token_hash s.contexts ≡ some x
      → x.consumed_at ≡ none
      → ltb s.now x.expires_at ≡ true
      → Step s (record s {
        contexts = replace_context (record x { consumed_at = some s.now }) s.contexts;
      })
