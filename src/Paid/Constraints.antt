-- ===== src/Paid/Constraints.antt =====
-- The CHECK constraints of backend/app/models/paid_campaign.py and of
-- backend/app/models/paid_delivery.py. What they ask of the sign of a counter holds of a number.
use connextion_z_luna.Prelude.{ℕ, Bool, true, false, ◌&&◌, ltb, leb, Option, none, some, if_some}
use connextion_z_luna.Payment.Constraints.{is_upper}
use connextion_z_luna.Paid.Model.{PaidCampaign, PaidDelivery, PaidInteractionContext}

-- A limit that is positive and not passed.
abbrev pub is_within : ℕ → Option ℕ → Bool
is_within delivered limit = if_some limit (λ most. ltb 0 most && leb delivered most)

-- Both are missing, or both are positive.
abbrev are_positive : Option ℕ → Option ℕ → Bool
are_positive none none = true
are_positive (some a) (some b) = ltb 0 a && ltb 0 b
are_positive _ _ = false

unfoldable pub campaign_constraints : PaidCampaign → Bool
unfolding is_upper
campaign_constraints c =
    ltb c.start_at c.end_at
    && ltb 0 c.budget_minor_units
    && leb c.spent_minor_units c.budget_minor_units
    && leb c.reach_delivered c.impressions_delivered
    && is_within c.impressions_delivered c.max_impressions
    && is_within c.reach_delivered c.max_reach
    && are_positive c.frequency_cap c.frequency_window_seconds
    && is_upper c.currency

unfoldable pub delivery_constraints : PaidDelivery → Bool
delivery_constraints d = if_some d.impressed_at (leb d.selected_at)

unfoldable pub context_constraints : PaidInteractionContext → Bool
context_constraints x = if_some x.consumed_at (λ at. leb at x.expires_at)
