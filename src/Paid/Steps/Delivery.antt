-- ===== src/Paid/Steps/Delivery.antt =====
-- Selecting a candidate and recording an impression are steps.
use connextion_z_luna.Prelude.{
  ℕ, Bool, true, false, ◌≡◌, refl, sym, subst, ap, ◌∙◌, not, ◌&&◌, ◌||◌, ◌==◌, none, some, [], ◌∷◌,
  any, all, find, is_some, not-eq-false, arith, Bool-cases, inl, inr,
}
use connextion_z_luna.Errors.{ok}
use connextion_z_luna.Exec.Ends.{
  Ends, Ends-bind, Ends-lift, Ends-gets, Ends-guard, Ends-if, Ends-case, Ends-last, returns, raises,
}
use connextion_z_luna.Exec.Returns.{ok_injective, raise_if-ok}
use connextion_z_luna.Paid.Model.{PaidCampaign, PaidDelivery, User}
use connextion_z_luna.Paid.Constraints.{campaign_constraints, delivery_constraints}
use connextion_z_luna.Paid.Targeting.{targeting_matches}
use connextion_z_luna.Paid.Transitions.{campaign_is_active}
use connextion_z_luna.Paid.Frequency.{FrequencyEligibility, is_allowed, check}
use connextion_z_luna.Paid.Eligibility.{
  PaidEligibility, eligible, viewer_tags, evaluate, evaluate_gates, evaluate_eligibility,
}
use connextion_z_luna.Paid.Database.{Database, get_user, is_hidden, count_paid_impressions}
use connextion_z_luna.Paid.Writes.{
  lock_campaign, find_selection, create_selection, is_insertable, insert_delivery, counted,
  count_impression, fits_columns, record_locked, replace_delivery, update_delivery,
}
use connextion_z_luna.Paid.Campaigns.{require_active_user}
use connextion_z_luna.Paid.Delivery.{
  PaidCandidate, stored_viewer, validate, select_locked, select_candidate, impress,
  record_selection, record_impression,
}
use connextion_z_luna.Paid.Rules.{
  Ends-required, Ends-reading, Ends-found, Ends-nested, Ends-postgresql, Ends-selection,
  find-passes, ==_sound, &&_left, &&_right, &&_four, not-eq-true, ||_false, is_none_of_not_some,
  some_eq, >>=-ok,
}
use connextion_z_luna.Paid.Steps.{
  Step, stay, selected, recorded, IsImpressible, reached_by, count_up,
}

module _ (c : PaidCampaign) (viewer : User) (now : ℕ) (s : Database) where
  -- What an evaluation that lets the viewer see the campaign has found.
  pub record IsEvaluated : Type 0 where
    pub is_active : campaign_is_active c now ≡ true
    pub frequency : FrequencyEligibility
    pub checked : check count_paid_impressions c viewer.id now s ≡ ok frequency
    pub permitted : is_allowed frequency ≡ true

  gates-IsEvaluated :
      (matches : Bool) (e : PaidEligibility)
      → evaluate_gates count_paid_impressions c viewer now s (campaign_is_active c now) matches
        ≡ ok e
      → eligible e ≡ true
      → IsEvaluated
  unfolding evaluate_gates
  gates-IsEvaluated matches e h g = elim (Bool-cases (campaign_is_active c now && matches)) [
    | inl both ↦
        let (f, checked, made) = >>=-ok _ _ e (rw both at h) in
        record {
          is_active = &&_left _ _ both;
          frequency = f;
          checked = checked;
          permitted =
              subst (λ x. is_allowed x.frequency ≡ true) (sym (ok_injective made))
                (&&_right (e.campaign_eligible && e.targeting_matches) _ g);
        }
    | inr other ↦
        absurd
          (unseen _ matches (subst (λ x. eligible x ≡ true) (sym (ok_injective (rw other at h))) g))
  ]
    where
      unseen : (a b : Bool) → (a && b && false) ≡ true → ⊥
      unseen a b h = ground arith

  pub evaluated :
      (e : PaidEligibility)
      → evaluate_eligibility count_paid_impressions c viewer now s ≡ ok e
      → eligible e ≡ true
      → IsEvaluated
  unfolding evaluate_eligibility evaluate
  evaluated e h g =
      let (u, active, rest) = >>=-ok (require_active_user viewer) _ e h in
      let (matches, targeted, gates) =
        >>=-ok (targeting_matches c.targeting (viewer_tags viewer (c ∷ []) s)) _ e rest in
      gates-IsEvaluated matches e gates g

module _ {Post : Unit {0} → Database → Type 0} where
  -- The validation reads only, and the rest may use what it found.
  pub validate-Ends :
      (c : PaidCampaign) (viewer : User) (now : ℕ) (s : Database)
      → (is_hidden viewer.id c.owner_id s ≡ false → IsEvaluated c viewer now s → Post tt s)
      → Ends Post (validate c viewer now s)
  unfolding validate
  validate-Ends c viewer now s h = Ends-reading _ _ s λ found listed. Ends-gets _ _ s (
      Ends-guard _ _ _ s λ shown. Ends-reading _ _ s λ n counted. Ends-reading _ _ s λ e evaluation.
        Ends-last _ s λ u passed. h (||_false _ _ shown).1 (
          evaluated c viewer now s e evaluation
            (not-eq-false (eligible e) (raise_if-ok _ _ u passed))))

-- The viewer that is stored has the identifier of the viewer that asks.
stored_viewer-Ends :
    {Post : User → Database → Type 0} (viewer : User) (s : Database)
    → ((stored : User) → stored.id ≡ viewer.id → Post stored s)
    → Ends Post (stored_viewer viewer s)
unfolding stored_viewer get_user
stored_viewer-Ends viewer s h = Ends-gets _ _ s (
    Ends-required _ _ _ s λ stored found. Ends-lift _ _ s λ u active.
      returns stored s
        (h stored (==_sound stored.id viewer.id (find-passes _ s.users stored found))))

lock_campaign-Ends :
    {Post : PaidCampaign → Database → Type 0} (id : ℕ) (s : Database)
    → ((c : PaidCampaign) → find (λ x. x.id == c.id) s.campaigns ≡ some c → c.id ≡ id → Post c s)
    → Ends Post (lock_campaign id s)
unfolding lock_campaign
lock_campaign-Ends id s h = Ends-postgresql _ s λ p. Ends-gets _ _ s (
    Ends-found _ _ s λ c found.
      let same = ==_sound c.id id (find-passes _ s.campaigns c found) in
      h c (subst (λ i. find (λ x. x.id == i) s.campaigns ≡ some c) (sym same) found) same)

insertable :
    (row : PaidDelivery) (s : Database)
    → is_insertable row s ≡ true
    → (any (λ c. c.id == row.campaign_id) s.campaigns ≡ true)
      × (any (λ e. e.id == row.id) s.deliveries ≡ false)
unfolding is_insertable
insertable row s good =
    let (timed, owned, posted, unused) = &&_four _ _ _ _ good in (owned, not-eq-true _ unused)

insert_delivery-Step :
    {Post : PaidDelivery → Database → Type 0} (d : PaidDelivery) (s : Database)
    → d.impressed_at ≡ none
    → ((row : PaidDelivery) (t : Database) → Step s t → Post row t)
    → Ends Post (insert_delivery d s)
unfolding insert_delivery
insert_delivery-Step d s fresh h =
    let row : PaidDelivery = record d { id = s.new_id } in
    Ends-case (is_insertable row s) _ _
      (λ good.
        let (owned, unused) = insertable row s good in
        returns row _ (h row _ (selected row fresh owned unused)))
      (λ bad. raises _ s)

pub select_candidate-Step :
    (viewer : User) (candidate : PaidCandidate) (s : Database)
    → Ends (λ id t. Step s t) (select_candidate viewer candidate s)
unfolding select_candidate select_locked create_selection
select_candidate-Step viewer candidate s = Ends-postgresql _ s λ p.
    Ends-nested (select_locked viewer candidate) s (
      Ends-bind (lock_campaign candidate.paid_campaign_id) _ s (
        lock_campaign-Ends candidate.paid_campaign_id s λ c locked same.
          Ends-bind (stored_viewer viewer) _ s (
            stored_viewer-Ends viewer s λ stored known. Ends-guard _ _ _ s λ promoted.
              Ends-gets (λ t. t.now) _ s
                (Ends-bind (validate c stored s.now) _ s (
                  validate-Ends c stored s.now s λ shown evaluated.
                    Ends-bind (create_selection c stored.id s.now) _ s (
                      insert_delivery-Step (selection c stored) s refl
                        λ row t step. returns row.id t step))))))
  where
    selection : PaidCampaign → User → PaidDelivery
    selection c stored = record {
      id = 0;
      campaign_id = c.id;
      viewer_id = stored.id;
      post_id = c.post_id;
      selected_at = s.now;
      impressed_at = none;
    }

-- A selection that is found has the columns by which it is found.
find_selection-again :
    (delivery_id viewer_id : ℕ) (s : Database) (d : PaidDelivery)
    → find_selection delivery_id viewer_id s.deliveries ≡ some d
    → (find_selection d.id d.viewer_id s.deliveries ≡ some d) × (d.viewer_id ≡ viewer_id)
unfolding find_selection
find_selection-again delivery_id viewer_id s d found =
    let hit = find-passes _ s.deliveries d found in
    let same = ==_sound d.id delivery_id (&&_left _ _ hit) in
    let mine = ==_sound d.viewer_id viewer_id (&&_right (d.id == delivery_id) _ hit) in
    (
      subst (λ i. find_selection i d.viewer_id s.deliveries ≡ some d) (sym same)
          (subst (λ v. find_selection delivery_id v s.deliveries ≡ some d) (sym mine) found),
      mine,
    )

pub counted-Ends :
    {Post : Unit {0} → Database → Type 0} (id : ℕ) (reached : Bool) (s : Database)
    → (all (λ c. not (c.id == id) || campaign_constraints (counted reached c)) s.campaigns ≡ true
        → Post tt (record s { campaigns = count_up reached id s.campaigns }))
    → Ends Post (count_impression id reached s)
unfolding count_impression
counted-Ends id reached s h =
    Ends-case (not (all (λ c. not (c.id == id) || fits_columns (counted reached c)) s.campaigns)) _
      _ (λ full. raises _ s)
      (λ fits. Ends-case _ _ _ (λ good. returns tt _ (h good)) (λ bad. raises _ s))

pub updated-Ends :
    {Post : PaidDelivery → Database → Type 0} (d : PaidDelivery) (s : Database)
    → Post d (record s { deliveries = replace_delivery d s.deliveries })
    → Ends Post (update_delivery d s)
unfolding update_delivery
updated-Ends d s h =
    Ends-case (delivery_constraints d) _ _ (λ good. returns d _ h) (λ bad. raises _ s)

record_locked-Step :
    {Post : PaidDelivery → Database → Type 0} (c : PaidCampaign) (d : PaidDelivery) (s : Database)
    → IsImpressible s c d
    → ((t : Database) → Step s t → Post (record d { impressed_at = some s.now }) t)
    → Ends Post (record_locked c d s.now s)
unfolding record_locked
record_locked-Step c d s i h = Ends-gets _ _ s (
    Ends-bind (count_impression c.id (reached_by c d s)) _ s (
      counted-Ends c.id (reached_by c d s) s λ constrained.
        updated-Ends (record d { impressed_at = some s.now }) _ (h _ (recorded c d i constrained))))

impress-Step :
    (c : PaidCampaign) (stored : User) (d : PaidDelivery) (s : Database)
    → find (λ x. x.id == c.id) s.campaigns ≡ some c
    → find_selection d.id d.viewer_id s.deliveries ≡ some d
    → d.impressed_at ≡ none
    → d.campaign_id ≡ c.id
    → stored.id ≡ d.viewer_id
    → Ends (λ r t. Step s t) (impress c stored d s)
unfolding impress
impress-Step c stored d s locked found fresh own known =
    Ends-gets (λ t. t.now) _ s
      (Ends-bind (validate c stored s.now) _ s (
        validate-Ends c stored s.now s λ shown evaluated. Ends-bind (record_locked c d s.now) _ s (
          record_locked-Step c d s
            (record {
              locked = locked;
              selected = found;
              unimpressed = fresh;
              of_campaign = own;
              visible = subst (λ v. is_hidden v c.owner_id s ≡ false) known shown;
              is_active = evaluated.is_active;
              frequency = evaluated.frequency;
              checked =
                  subst (λ v. check count_paid_impressions c v s.now s ≡ ok evaluated.frequency)
                    known evaluated.checked;
              permitted = evaluated.permitted;
            })
            λ t step. returns _ t step)))

pub record_impression-Step :
    (viewer : User) (delivery_id : ℕ) (s : Database)
    → Ends (λ r t. Step s t) (record_impression viewer delivery_id s)
unfolding record_impression record_selection
record_impression-Step viewer delivery_id s = Ends-postgresql _ s λ p.
    Ends-nested (record_selection viewer delivery_id) s (
      Ends-selection delivery_id viewer.id _ s λ earlier seen.
        Ends-bind (lock_campaign earlier.campaign_id) _ s (
          lock_campaign-Ends earlier.campaign_id s λ c locked same.
            Ends-selection delivery_id viewer.id _ s λ d found. Ends-guard _ _ _ s λ promoted.
              Ends-bind (stored_viewer viewer) _ s (
                stored_viewer-Ends viewer s λ stored known.
                  Ends-if (is_some d.impressed_at) _ _ s (λ counted. returns _ s stay)
                    (λ fresh.
                      let (again, mine) = find_selection-again delivery_id viewer.id s d found in
                      impress-Step c stored d s locked again
                        (is_none_of_not_some d.impressed_at (rw fresh))
                        (ap (λ x. x.campaign_id) (some_eq (sym found ∙ seen)) ∙ sym same)
                        (known ∙ sym mine)))))
