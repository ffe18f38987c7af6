-- ===== src/Paid/History/Evolution.antt =====
-- How a campaign may come to be another one.
use connextion_z_luna.Prelude.{
  ℕ, String, Bool, true, ◌≡◌, refl, sym, subst, ◌∙◌, ◌==◌, ◌||◌, ◌≤◌, ltb, some, List, [], ◌∷◌, any,
  find, str_eq_sound, arith, Bool-cases, inl, inr, if◌then◌else◌,
}
use connextion_z_luna.Prelude.Rows.{unique}
use connextion_z_luna.Prelude.Only.{
  IsOnly, find-IsOnly, IsOnly-find, IsOnly-snoc, IsOnly-found, IsOnly-changed,
}
use connextion_z_luna.Paid.Model.{PaidCampaignStatus, PaidCampaign}
use connextion_z_luna.Paid.Database.{Database, get_owned}
use connextion_z_luna.Paid.Transitions.{is_status, transitions}
use connextion_z_luna.Paid.Writes.{replace_campaign, counted}
use connextion_z_luna.Paid.Calls.{Event, served, elsewhere, handle, history}
use connextion_z_luna.Paid.Steps.{
  Step, stay, created, updated, selected, recorded, issued, consumed, IsUpdate, reached_by,
  count_up,
}
use connextion_z_luna.Paid.Steps.Calls.{serve-Step}
use connextion_z_luna.Paid.History.Lifecycle.{same_status}

-- The states to which TRANSITIONS leads, in any number of transitions.
pub data Reaches (a : PaidCampaignStatus) : PaidCampaignStatus → Type 0 where
  here : Reaches a a
  next :
      (b c : PaidCampaignStatus)
      → Reaches a b
      → any (is_status c) (transitions b) ≡ true
      → Reaches a c

Reaches-trans : {a b c : PaidCampaignStatus} → Reaches a b → Reaches b c → Reaches a c
Reaches-trans r here = r
Reaches-trans r (next b c q t) = next b c (Reaches-trans r q) t

abbrev is_charged : PaidCampaign → Bool
is_charged c = ltb 0 c.spent_minor_units || ltb 0 c.impressions_delivered

-- `d` is what became of `c`.
pub record EvolvesTo (c d : PaidCampaign) : Type 0 where
  pub id : d.id ≡ c.id
  pub owner_id : d.owner_id ≡ c.owner_id
  pub post_id : d.post_id ≡ c.post_id
  pub spent_minor_units : d.spent_minor_units ≡ c.spent_minor_units
  pub impressions : c.impressions_delivered ≤ d.impressions_delivered
  pub reach : c.reach_delivered ≤ d.reach_delivered
  pub status : Reaches c.status d.status
  pub currency : is_charged c ≡ true → d.currency ≡ c.currency

EvolvesTo-refl : (c : PaidCampaign) → EvolvesTo c c
EvolvesTo-refl c = record {
  id = refl;
  owner_id = refl;
  post_id = refl;
  spent_minor_units = refl;
  impressions = omega arith;
  reach = omega arith;
  status = here;
  currency = λ h. refl;
}

EvolvesTo-trans : (b c d : PaidCampaign) → EvolvesTo b c → EvolvesTo c d → EvolvesTo b d
EvolvesTo-trans b c d p q = record {
  id = q.id ∙ p.id;
  owner_id = q.owner_id ∙ p.owner_id;
  post_id = q.post_id ∙ p.post_id;
  spent_minor_units = q.spent_minor_units ∙ p.spent_minor_units;
  impressions = omega (arith, p.impressions, q.impressions);
  reach = omega (arith, p.reach, q.reach);
  status = Reaches-trans p.status q.status;
  currency = λ h. q.currency (ground (arith, p.impressions, p.spent_minor_units)) ∙ p.currency h;
}

moved-Reaches :
    (a b : PaidCampaignStatus)
    → (is_status b a || any (is_status b) (transitions a)) ≡ true
    → Reaches a b
moved-Reaches a b h = elim (Bool-cases (any (is_status b) (transitions a))) [
  | inl moved ↦ next a b here moved
  | inr not_moved ↦
      subst (λ x. Reaches a x) (sym (same_status b a (ground (arith, h, not_moved)))) here
]

update-EvolvesTo : (c d : PaidCampaign) → IsUpdate c d → EvolvesTo c d
update-EvolvesTo c d u = record {
  id = u.same.id;
  owner_id = u.same.owner_id;
  post_id = u.same.post_id;
  spent_minor_units = u.same.spent_minor_units;
  impressions = omega (arith, u.same.impressions_delivered);
  reach = omega (arith, u.same.reach_delivered);
  status = moved-Reaches c.status d.status u.moved;
  currency = λ h. str_eq_sound d.currency c.currency (u.charged h);
}

counted-EvolvesTo : (reached : Bool) (c : PaidCampaign) → EvolvesTo c (counted reached c)
unfolding counted
counted-EvolvesTo reached c = record {
  id = refl;
  owner_id = refl;
  post_id = refl;
  spent_minor_units = refl;
  impressions = omega arith;
  reach = ground arith;
  status = here;
  currency = λ h. refl;
}

abbrev IsIn : PaidCampaign → Database → Type 0
IsIn c s = IsOnly (λ x. x.id) c s.campaigns

-- The campaign that became of `c`, alone with its identifier.
abbrev Evolved : PaidCampaign → Database → Type 0
Evolved c s = (d : PaidCampaign) × IsIn d s × EvolvesTo c d

module _ (d : PaidCampaign) (s : Database) (h : IsIn d s) where
  updated-Evolved :
      (b b' : PaidCampaign)
      → get_owned b.id b.owner_id s ≡ some b
      → IsUpdate b b'
      → Evolved d (record s { campaigns = replace_campaign b' s.campaigns })
  unfolding replace_campaign get_owned
  updated-Evolved b b' found u = (f d, IsOnly-changed (λ x. x.id) d f same s.campaigns h, evolves)
    where
      f : PaidCampaign → PaidCampaign
      f x = if x.id == b'.id then b' else x

      same : (x : PaidCampaign) → (if x.id == b'.id then b' else x).id ≡ x.id
      same x = ground arith

      evolves : EvolvesTo d (if d.id == b'.id then b' else d)
      evolves = elim (Bool-cases (d.id == b'.id)) [
        | inl hit ↦
            let known =
              IsOnly-found (λ x. x.id) d _ s.campaigns b h found (ground (arith, u.same.id)) in
            rw hit (subst (λ x. EvolvesTo x b') known (update-EvolvesTo b b' u))
        | inr miss ↦ rw miss (EvolvesTo-refl d)
      ]

  recorded-Evolved :
      (id : ℕ) (reached : Bool)
      → (e : PaidCampaign) × IsOnly (λ x. x.id) e (count_up reached id s.campaigns) × EvolvesTo d e
  unfolding counted
  recorded-Evolved id reached = (f d, IsOnly-changed (λ x. x.id) d f same s.campaigns h, evolves)
    where
      f : PaidCampaign → PaidCampaign
      f x = if x.id == id then counted reached x else x

      same : (x : PaidCampaign) → (if x.id == id then counted reached x else x).id ≡ x.id
      same x = ground arith

      evolves : EvolvesTo d (if d.id == id then counted reached d else d)
      evolves = elim (Bool-cases (d.id == id)) [
        | inl hit ↦ rw hit (counted-EvolvesTo reached d)
        | inr miss ↦ rw miss (EvolvesTo-refl d)
      ]

Step-Evolved : (d : PaidCampaign) (s t : Database) → Step s t → IsIn d s → Evolved d t
Step-Evolved d s t stay h = (d, h, EvolvesTo-refl d)
Step-Evolved d s t (created b n) h =
    (d, IsOnly-snoc (λ x. x.id) d s.campaigns b n.unused h, EvolvesTo-refl d)
Step-Evolved d s t (updated b b' found u) h = updated-Evolved d s h b b' found u
Step-Evolved d s t (selected e fresh there unused) h = (d, h, EvolvesTo-refl d)
Step-Evolved d s t (recorded b e i k) h = recorded-Evolved d s h b.id (reached_by b e s)
Step-Evolved d s t (issued x fresh unused) h = (d, h, EvolvesTo-refl d)
Step-Evolved d s t (consumed x found fresh live) h = (d, h, EvolvesTo-refl d)

history-Evolved :
    (digest : String → String) (events : List Event) (s : Database) (c : PaidCampaign)
    → Evolved c s
    → Evolved c (history digest events s)
unfolding history handle
history-Evolved digest [] s c h = h
history-Evolved digest (served call ∷ events) s c (d, only, from) =
    let (e, still, next_one) = Step-Evolved d s _ (serve-Step digest call s) only in
    history-Evolved digest events _ c (e, still, EvolvesTo-trans c d e from next_one)
history-Evolved digest (elsewhere users profiles posts blocks mutes now new_id ∷ events) s c h =
    history-Evolved digest events _ c h

-- Where campaigns have different identifiers, after any calls and any changes elsewhere a campaign is
-- still found by its identifier; it has the owner, the post and the spending it had, at least as many
-- impressions and as much reach, a state to which TRANSITIONS leads from the one it had, and, if
-- it had spent or delivered anything, the currency it had.
pub history-EvolvesTo :
    (digest : String → String) (events : List Event) (s : Database) (c : PaidCampaign)
    → unique (λ x. x.id) s.campaigns ≡ true
    → find (λ x. x.id == c.id) s.campaigns ≡ some c
    → (d : PaidCampaign) × (find (λ x. x.id == c.id) (history digest events s).campaigns ≡ some d)
      × EvolvesTo c d
history-EvolvesTo digest events s c distinct found =
    let (d, only, from) =
      history-Evolved digest events s c
        (c, find-IsOnly (λ x. x.id) c _ s.campaigns distinct found, EvolvesTo-refl c) in
    (
      d,
      subst (λ k. find (λ x. x.id == k) (history digest events s).campaigns ≡ some d) from.id
          (IsOnly-find (λ x. x.id) d _ only),
      from,
    )
