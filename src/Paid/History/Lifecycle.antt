-- ===== src/Paid/History/Lifecycle.antt =====
-- A campaign that has ended stays as it is.
use connextion_z_luna.Prelude.{
  ℕ, String, Bool, true, false, ◌≡◌, sym, subst, ◌∙◌, ◌==◌, ◌&&◌, ◌||◌, some, List, [], ◌∷◌, any,
  find, arith, Bool-cases, inl, inr, if◌then◌else◌,
}
use connextion_z_luna.Prelude.Rows.{unique}
use connextion_z_luna.Prelude.Only.{
  IsOnly, find-IsOnly, IsOnly-find, IsOnly-snoc, IsOnly-found, IsOnly-map,
}
use connextion_z_luna.Paid.Model.{PaidCampaignStatus, PaidCampaign}
use connextion_z_luna.Paid.Database.{Database, get_owned}
use connextion_z_luna.Paid.Transitions.{is_status, transitions, campaign_is_active}
use connextion_z_luna.Paid.Writes.{replace_campaign, counted}
use connextion_z_luna.Paid.Calls.{Event, served, elsewhere, handle, history}
use connextion_z_luna.Paid.Steps.{
  Step, stay, created, updated, selected, recorded, issued, consumed, IsUpdate, IsSame,
  IsConfiguredAs, reached_by, is_editable, count_up,
}
use connextion_z_luna.Paid.Steps.Calls.{serve-Step}

-- EXHAUSTED, COMPLETED and CANCELLED.
abbrev pub is_final : PaidCampaignStatus → Bool
is_final PaidCampaignStatus.exhausted = true
is_final PaidCampaignStatus.completed = true
is_final PaidCampaignStatus.cancelled = true
is_final status = false

pub same_status : (a b : PaidCampaignStatus) → is_status a b ≡ true → a ≡ b
same_status PaidCampaignStatus.draft b h = ground arith
same_status a b h = ground arith

-- An update of a campaign that has ended changes nothing.
final-updated :
    (a b : PaidCampaignStatus)
    → is_final b ≡ true
    → (is_status a b || any (is_status a) (transitions b)) ≡ true
    → (is_status a b ≡ true) × (is_editable b ≡ false)
unfolding transitions
final-updated a PaidCampaignStatus.exhausted f h = ground arith
final-updated a b f h = ground arith

same_campaign : (c d : PaidCampaign) → IsSame c d → IsConfiguredAs c d → d.status ≡ c.status → d ≡ c
same_campaign c d s k t = cc (
  s.id, s.owner_id, s.post_id, s.spent_minor_units, s.impressions_delivered, s.reach_delivered,
  s.created_at, k.start_at, k.end_at, k.currency, k.budget_minor_units, k.max_impressions,
  k.max_reach, k.frequency_cap, k.frequency_window_seconds, k.targeting, t,
)

final-unchanged : (c d : PaidCampaign) → is_final c.status ≡ true → IsUpdate c d → d ≡ c
final-unchanged c d f u =
    let (same, fixed) = final-updated d.status c.status f u.moved in
    same_campaign c d u.same (u.configured fixed) (same_status d.status c.status same)

inactive :
    (c : PaidCampaign) (now : ℕ) → is_final c.status ≡ true → campaign_is_active c now ≡ false
unfolding campaign_is_active
inactive c now f = by_status c.status f _ _ _
  where
    by_status :
        (status : PaidCampaignStatus)
        → is_final status ≡ true
        → (a b c : Bool) → (is_status status PaidCampaignStatus.active && a && b && c) ≡ false
    by_status PaidCampaignStatus.draft f a b c = ground arith
    by_status status f a b c = ground arith

abbrev IsIn : PaidCampaign → Database → Type 0
IsIn c s = IsOnly (λ x. x.id) c s.campaigns

module _ (c : PaidCampaign) (ended : is_final c.status ≡ true) where
  updated-IsIn :
      (b d : PaidCampaign) (s : Database)
      → get_owned b.id b.owner_id s ≡ some b
      → IsUpdate b d
      → IsIn c s
      → IsOnly (λ x. x.id) c (replace_campaign d s.campaigns)
  unfolding replace_campaign get_owned
  updated-IsIn b d s found u h =
      IsOnly-map (λ x. x.id) c (λ x. if x.id == d.id then d else x) same fixed s.campaigns h
    where
      same : (x : PaidCampaign) → (if x.id == d.id then d else x).id ≡ x.id
      same x = ground arith

      unchanged : (c.id == d.id) ≡ true → d ≡ c
      unchanged hit =
          let known =
            IsOnly-found (λ x. x.id) c _ s.campaigns b h found (ground (arith, u.same.id)) in
          final-unchanged b d (subst (λ x. is_final x.status ≡ true) (sym known) ended) u ∙ known

      fixed : (if c.id == d.id then d else c) ≡ c
      fixed = elim (Bool-cases (c.id == d.id)) [
        | inl hit ↦ rw hit (unchanged hit)
        | inr miss ↦ rw miss
      ]

  recorded-IsIn :
      (b : PaidCampaign) (reached : Bool) (s : Database)
      → find (λ x. x.id == b.id) s.campaigns ≡ some b
      → campaign_is_active b s.now ≡ true
      → IsIn c s
      → IsOnly (λ x. x.id) c (count_up reached b.id s.campaigns)
  unfolding counted
  recorded-IsIn b reached s found open_now h =
      IsOnly-map (λ x. x.id) c (λ x. if x.id == b.id then counted reached x else x) same fixed
        s.campaigns h
    where
      same : (x : PaidCampaign) → (if x.id == b.id then counted reached x else x).id ≡ x.id
      same x = ground arith

      clash : (c.id == b.id) ≡ true → ⊥
      clash hit =
          let known = IsOnly-found (λ x. x.id) c _ s.campaigns b h found (ground arith) in
          let active_one = subst (λ x. campaign_is_active x s.now ≡ true) known open_now in
          ground (arith, inactive c s.now ended)

      fixed : (if c.id == b.id then counted reached c else c) ≡ c
      fixed = elim (Bool-cases (c.id == b.id)) [ inl hit ↦ absurd (clash hit) | inr miss ↦ rw miss ]

  Step-IsIn : (s t : Database) → Step s t → IsIn c s → IsIn c t
  Step-IsIn s t stay h = h
  Step-IsIn s t (created b n) h = IsOnly-snoc (λ x. x.id) c s.campaigns b n.unused h
  Step-IsIn s t (updated b d found u) h = updated-IsIn b d s found u h
  Step-IsIn s t (selected d fresh there unused) h = h
  Step-IsIn s t (recorded b d i k) h = recorded-IsIn b (reached_by b d s) s i.locked i.is_active h
  Step-IsIn s t (issued x fresh unused) h = h
  Step-IsIn s t (consumed x found fresh live) h = h

  history-IsIn :
      (digest : String → String) (events : List Event) (s : Database)
      → IsIn c s
      → IsIn c (history digest events s)
  unfolding history handle
  history-IsIn digest [] s h = h
  history-IsIn digest (served call ∷ events) s h =
      history-IsIn digest events _ (Step-IsIn s _ (serve-Step digest call s) h)
  history-IsIn digest (elsewhere users profiles posts blocks mutes now new_id ∷ events) s h =
      history-IsIn digest events _ h

-- Where campaigns have different identifiers, a campaign that is EXHAUSTED, COMPLETED or CANCELLED is
-- found unchanged, in every column, after any calls and any changes elsewhere: it takes no
-- impression, no new configuration and no other state.
pub history-IsFinal :
    (digest : String → String) (events : List Event) (s : Database) (c : PaidCampaign)
    → unique (λ x. x.id) s.campaigns ≡ true
    → find (λ x. x.id == c.id) s.campaigns ≡ some c
    → is_final c.status ≡ true
    → find (λ x. x.id == c.id) (history digest events s).campaigns ≡ some c
history-IsFinal digest events s c distinct found ended =
    IsOnly-find (λ x. x.id) c (history digest events s).campaigns
      (history-IsIn c ended digest events s
        (find-IsOnly (λ x. x.id) c _ s.campaigns distinct found))
