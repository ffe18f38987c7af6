-- ===== src/Paid/Accounts/Recorded.antt =====
-- The step that records an impression keeps the accounts balanced.
use connextion_z_luna.Prelude.{
  ℕ, true, ◌≡◌, refl, ap, subst, ◌∙◌, not, ◌||◌, ◌==◌, ◌+◌, List, [], ◌∷◌, all, All, arith,
  Bool-cases, inl, inr, if◌then◌else◌,
}
use connextion_z_luna.Prelude.Rows.{IsLocated, find-IsLocated, unique-map}
use connextion_z_luna.Paid.Model.{PaidCampaign, PaidDelivery}
use connextion_z_luna.Paid.Constraints.{campaign_constraints}
use connextion_z_luna.Paid.Database.{Database, total, reach}
use connextion_z_luna.Paid.Writes.{replace_delivery, counted, previously_reached, find_selection}
use connextion_z_luna.Paid.Rules.{==_sound, &&_left, &&_right}
use connextion_z_luna.Paid.Steps.{IsImpressible, impressed, reached_by, count_up}
use connextion_z_luna.Paid.Accounts.{IsAccounted, IsBalanced, has_campaign}
use connextion_z_luna.Paid.Accounts.Writes.{total-recorded, reach-recorded}
use connextion_z_luna.Paid.Accounts.Rows.{All-imp, All-find, All-map-if, has_campaign-mapped}

module _ (s : Database) (h : IsBalanced s) (c : PaidCampaign) (d : PaidDelivery)
    (i : IsImpressible s c d) where
  located : IsLocated (λ x. x.id) d s.deliveries
  unfolding find_selection
  located = find-IsLocated (λ x. x.id) _ s.deliveries d h.distinct i.selected

  total_after :
      (id : ℕ)
      → total id (replace_delivery (impressed s.now d) s.deliveries)
        ≡ total id s.deliveries + (if c.id == id then 1 else 0)
  total_after id =
      subst
        (λ k.
          total id (replace_delivery (impressed s.now d) s.deliveries)
          ≡ total id s.deliveries + (if k == id then 1 else 0))
        i.of_campaign
        (total-recorded id s.deliveries d (impressed s.now d) i.unimpressed refl refl refl refl
          located)

  reach_after :
      (id : ℕ)
      → reach id (replace_delivery (impressed s.now d) s.deliveries)
        ≡ reach id s.deliveries
          + (if c.id == id
              then (if previously_reached id d.viewer_id s.deliveries then 0 else 1)
              else 0)
  reach_after id =
      subst
        (λ k.
          reach id (replace_delivery (impressed s.now d) s.deliveries)
          ≡ reach id s.deliveries
            + (if k == id
                then (if previously_reached id d.viewer_id s.deliveries then 0 else 1)
                else 0))
        i.of_campaign
        (reach-recorded id s.deliveries d (impressed s.now d) i.unimpressed refl refl refl refl
          located)

  counted-IsAccounted :
      (x : PaidCampaign)
      → (not (x.id == c.id) || campaign_constraints (counted (reached_by c d s) x)) ≡ true
      → IsAccounted s.deliveries x
      → IsAccounted
          (replace_delivery (impressed s.now d) s.deliveries)
          (if x.id == c.id then counted (reached_by c d s) x else x)
  unfolding counted
  counted-IsAccounted x k a = elim (Bool-cases (x.id == c.id)) [
    | inl ours ↦
        let same = ==_sound x.id c.id ours in
        rw ours (record {
          impressions = ground (arith, a.impressions, total_after x.id);
          reached = ground (
            arith,
            a.reached,
            reach_after x.id,
            ap (λ k. previously_reached k d.viewer_id s.deliveries) same,
          );
          constrained = rw ours at k;
        })
    | inr other ↦ rw other (record {
      impressions = ground (arith, a.impressions, total_after x.id);
      reached = ground (arith, a.reached, reach_after x.id);
      constrained = a.constrained;
    })
  ]

  counted-All :
      (rows : List PaidCampaign)
      → all (λ x. not (x.id == c.id) || campaign_constraints (counted (reached_by c d s) x)) rows
        ≡ true
      → All (IsAccounted s.deliveries) rows
      → All
          (IsAccounted (replace_delivery (impressed s.now d) s.deliveries))
          (count_up (reached_by c d s) c.id rows)
  counted-All [] k a = tt
  counted-All (x ∷ rows) k a = (
    counted-IsAccounted x (&&_left _ _ k) a.0,
    counted-All rows
        (&&_right (not (x.id == c.id) || campaign_constraints (counted (reached_by c d s) x)) _ k)
        a.1,
  )

  recorded_owner :
      (x : PaidCampaign) → (if x.id == c.id then counted (reached_by c d s) x else x).id ≡ x.id
  unfolding counted
  recorded_owner x = ground arith

  pub recorded-IsBalanced :
      all
          (λ x. not (x.id == c.id) || campaign_constraints (counted (reached_by c d s) x))
          s.campaigns
        ≡ true
      → IsBalanced (record s {
        campaigns = count_up (reached_by c d s) c.id s.campaigns;
        deliveries = replace_delivery (impressed s.now d) s.deliveries;
      })
  unfolding replace_delivery find_selection
  recorded-IsBalanced k = record {
    accounted = counted-All s.campaigns k h.accounted;
    distinct = unique-map (λ e. e.id) _ same_key s.deliveries ∙ h.distinct;
    owned =
        All-imp _ _
          (λ e there.
            has_campaign-mapped (λ x. if x.id == c.id then counted (reached_by c d s) x else x)
              recorded_owner s.campaigns e
            ∙ there)
          _
          (All-map-if (λ e. has_campaign s.campaigns e ≡ true) (λ e. e.id == d.id)
            (λ e. impressed s.now d) s.deliveries
            (λ e hit there.
              All-find (λ e. has_campaign s.campaigns e ≡ true) _ s.deliveries d h.owned i.selected)
            h.owned);
  }
    where
      same_key : (e : PaidDelivery) → (if e.id == d.id then impressed s.now d else e).id ≡ e.id
      same_key e = ground arith
