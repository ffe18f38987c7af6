-- ===== src/Paid/Steps/Campaigns.antt =====
-- The owner's calls on campaigns are steps.
use connextion_z_luna.Prelude.{
  ℕ, Bool, true, false, ◌≡◌, refl, sym, subst, not, ◌&&◌, ◌||◌, ◌==◌, Option, none, some, arith,
  ltb, str_eq, str_eq_refl, any,
}
use connextion_z_luna.Errors.{ok}
use connextion_z_luna.Exec.{lift, pure}
use connextion_z_luna.Exec.Ends.{
  Ends, Ends-bind, Ends-lift, Ends-gets, Ends-guard, Ends-if, Ends-case, Ends-last, returns, raises,
}
use connextion_z_luna.Paid.Model.{PaidCampaignStatus, PaidCampaign, User}
use connextion_z_luna.Paid.Constraints.{campaign_constraints}
use connextion_z_luna.Paid.Configuration.{CampaignConfiguration, ValidConfiguration}
use connextion_z_luna.Paid.Transitions.{
  is_status, check_configuration, check_times, configure, configured, check_requested, or_current,
}
use connextion_z_luna.Paid.Database.{Database, get_owned}
use connextion_z_luna.Paid.Writes.{insert_campaign, update_campaign_row}
use connextion_z_luna.Paid.Campaigns.{
  validate_post, new_campaign, create_campaign, get_campaign, check_activation, check_proposed,
  update_campaign,
}
use connextion_z_luna.Paid.Rules.{
  Ends-required, Ends-found, find-passes, ==_sound, &&_left, &&_right, not-eq-true, &&_four,
}
use connextion_z_luna.Paid.Steps.{Step, stay, created, updated, IsSame, IsConfiguredAs, is_editable}

module _ {Post : Unit {0} → Database → Type 0} where
  -- The validation of a post reads only.
  validate_post-Ends :
      (owner : User) (post_id : ℕ) (s : Database)
      → Post tt s
      → Ends Post (validate_post owner post_id s)
  unfolding validate_post
  validate_post-Ends owner post_id s h = Ends-gets _ _ s (
      Ends-required _ _ _ s λ post found.
        Ends-guard _ _ _ s
          λ own. Ends-guard _ _ _ s λ public. Ends-gets _ _ s (Ends-last _ s (λ u closed. h)))

module _ {Post : Unit {0} → Database → Type 0} where
  -- So do the checks on the campaign as it would be.
  check_proposed-Ends :
      (owner : User) (c : PaidCampaign) (moment : ℕ) (s : Database)
      → Post tt s
      → Ends Post (check_proposed owner c moment s)
  unfolding check_proposed check_activation
  check_proposed-Ends owner c moment s h = Ends-bind _ _ s (
      Ends-if (is_status c.status PaidCampaignStatus.active) (check_activation owner c moment)
        (pure tt) s
        (λ activated.
          Ends-lift _ _ s λ config valid.
            Ends-guard _ _ _ s λ now_open. validate_post-Ends owner c.post_id s later)
        (λ other. returns tt s later))
    where
      later : Ends Post (lift (check_times c moment) s)
      later = Ends-last _ s (λ u passed. h)

insert_campaign-Step :
    (c : PaidCampaign) (s : Database)
    → c.status ≡ PaidCampaignStatus.draft
    → c.impressions_delivered ≡ 0
    → c.reach_delivered ≡ 0
    → c.spent_minor_units ≡ 0
    → Ends (λ row t. Step s t) (insert_campaign c s)
unfolding insert_campaign
insert_campaign-Step c s d i r m =
    let row : PaidCampaign = record c { id = s.new_id; created_at = s.now } in
    Ends-case _ _ _
      (λ h.
        let (constrained, owned, posted, unused) =
          &&_four (campaign_constraints row) (any (λ u. u.id == c.owner_id) s.users)
            (any (λ p. p.id == c.post_id) s.posts) _ h in
        returns row _ (
          created row (record {
            constrained = constrained;
            unused = not-eq-true _ unused;
            drafted = d;
            unimpressed = i;
            unreached = r;
            unspent = m;
          })))
      (λ h. raises _ s)

pub create_campaign-Step :
    (owner : User) (post_id : ℕ) (configuration : CampaignConfiguration) (s : Database)
    → Ends (λ c t. Step s t) (create_campaign owner post_id configuration s)
unfolding create_campaign new_campaign
create_campaign-Step owner post_id configuration s = Ends-lift _ _ s λ u active.
    Ends-lift _ _ s λ config valid. Ends-bind _ _ s (
      validate_post-Ends owner post_id s
        (insert_campaign-Step (new_campaign owner post_id config) s refl refl refl refl))

pub get_campaign-Step :
    (owner : User) (campaign_id : ℕ) (s : Database)
    → Ends (λ c t. Step s t) (get_campaign owner campaign_id s)
unfolding get_campaign
get_campaign-Step owner campaign_id s =
    Ends-lift _ _ s λ u active. Ends-gets _ _ s (Ends-found _ _ s (λ c found. stay))

-- A new configuration leaves the identity and the counters of a campaign.
configured-IsSame :
    (config : Option ValidConfiguration) (status : PaidCampaignStatus) (c : PaidCampaign)
    → IsSame c (record (configured config c) { status = status })
unfolding configure
configured-IsSame none status c = record {
  id = refl;
  owner_id = refl;
  post_id = refl;
  spent_minor_units = refl;
  impressions_delivered = refl;
  reach_delivered = refl;
  created_at = refl;
}
configured-IsSame (some config) status c = record {
  id = refl;
  owner_id = refl;
  post_id = refl;
  spent_minor_units = refl;
  impressions_delivered = refl;
  reach_delivered = refl;
  created_at = refl;
}

configured-IsConfiguredAs :
    (config : Option ValidConfiguration) (status : PaidCampaignStatus) (c : PaidCampaign)
    (u : Unit {0})
    → check_requested c config ≡ ok u
    → is_editable c.status ≡ false
    → IsConfiguredAs c (record (configured config c) { status = status })
unfolding configure check_configuration
configured-IsConfiguredAs none status c u h n = record {
  start_at = refl;
  end_at = refl;
  currency = refl;
  budget_minor_units = refl;
  max_impressions = refl;
  max_reach = refl;
  frequency_cap = refl;
  frequency_window_seconds = refl;
  targeting = refl;
}
configured-IsConfiguredAs (some config) status c u h n = absurd (ground arith)

configured-charged :
    (config : Option ValidConfiguration) (c : PaidCampaign) (u : Unit {0})
    → check_requested c config ≡ ok u
    → (ltb 0 c.spent_minor_units || ltb 0 c.impressions_delivered) ≡ true
    → str_eq (configured config c).currency c.currency ≡ true
unfolding configure check_configuration
configured-charged none c u h n = str_eq_refl c.currency
configured-charged (some config) c u h n = ground arith

module _ (owner : User) (campaign_id : ℕ) (s : Database) where
  pub update_campaign-Step :
      (configuration : Option CampaignConfiguration) (status : Option PaidCampaignStatus)
      (moment : ℕ)
      → Ends (λ c t. Step s t) (update_campaign owner campaign_id configuration status moment s)
  unfolding update_campaign update_campaign_row get_owned
  update_campaign-Step configuration status moment = Ends-lift _ _ s λ u active. Ends-gets _ _ s (
      Ends-required _ _ _ s λ c found. Ends-guard _ _ _ s λ asked. Ends-lift _ _ s λ config valid.
        Ends-lift _ _ s λ v checked. Ends-guard _ _ _ s λ allowed. Ends-bind _ _ s (
          check_proposed-Ends owner (proposed config c) moment s (
            Ends-case _ _ _
              (λ good. returns (proposed config c) _ (
                updated c (proposed config c) (owned c found) (record {
                  same = configured-IsSame config _ c;
                  constrained = good;
                  moved = moved _ _ allowed;
                  configured = configured-IsConfiguredAs config _ c v checked;
                  charged = configured-charged config c v checked;
                })))
              (λ bad. raises _ s))))
    where
      proposed : Option ValidConfiguration → PaidCampaign → PaidCampaign
      proposed config c = record (configured config c) { status = or_current status c }

      owned :
          (c : PaidCampaign)
          → get_owned campaign_id owner.id s ≡ some c
          → get_owned c.id c.owner_id s ≡ some c
      owned c found =
          let hit = find-passes _ s.campaigns c found in
          let same = ==_sound c.id campaign_id (&&_left _ _ hit) in
          let mine = ==_sound c.owner_id owner.id (&&_right (c.id == campaign_id) _ hit) in
          subst (λ i. get_owned i c.owner_id s ≡ some c) (sym same)
            (subst (λ o. get_owned campaign_id o s ≡ some c) (sym mine) found)

      moved : (a b : Bool) → (not a && not b) ≡ false → (a || b) ≡ true
      moved a b h = ground arith
