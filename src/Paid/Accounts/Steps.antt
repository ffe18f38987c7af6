-- ===== src/Paid/Accounts/Steps.antt =====
-- Every step keeps the accounts balanced.
use connextion_z_luna.Prelude.{
  ℕ, true, false, ◌≡◌, refl, sym, ap, subst, ◌∙◌, ◌==◌, ◌+◌, none, some, List, [], ◌∷◌, ◌++◌, map,
  any, filter, count_distinct, All, arith, Bool-cases, inl, inr, if◌then◌else◌,
}
use connextion_z_luna.Prelude.Rows.{unique, unique-snoc}
use connextion_z_luna.Paid.Model.{PaidCampaign, PaidDelivery}
use connextion_z_luna.Paid.Database.{Database, is_impression, total, reach, get_owned}
use connextion_z_luna.Paid.Writes.{replace_campaign}
use connextion_z_luna.Paid.Rules.{==_sound}
use connextion_z_luna.Paid.Steps.{
  Step, stay, created, updated, selected, recorded, issued, consumed, IsNew, IsUpdate,
}
use connextion_z_luna.Paid.Accounts.{IsAccounted, IsBalanced, has_campaign}
use connextion_z_luna.Paid.Accounts.Recorded.{recorded-IsBalanced}
use connextion_z_luna.Paid.Accounts.Rows.{
  All-imp, All-snoc, All-find, All-map-if, has_campaign-created, has_campaign-mapped,
}
use connextion_z_luna.Paid.Accounts.Writes.{total-selected, reach-selected}

-- No delivery is of a campaign that is not there.
unowned :
    (campaigns : List PaidCampaign) (id : ℕ) (rows : List PaidDelivery)
    → any (λ c. c.id == id) campaigns ≡ false
    → All (λ d. has_campaign campaigns d ≡ true) rows
    → (total id rows ≡ 0) × (filter (is_impression id) rows ≡ [])
unfolding total is_impression
unowned campaigns id [] h o = (refl, refl)
unowned campaigns id (d ∷ rows) h o = elim (Bool-cases (d.campaign_id == id)) [
  | inl ours ↦ absurd (
      clash
        (subst (λ i. any (λ c. c.id == i) campaigns ≡ true) (==_sound d.campaign_id id ours) o.0))
  | inr other ↦ rw other (unowned campaigns id rows h o.1)
]
  where
    clash : any (λ c. c.id == id) campaigns ≡ true → ⊥
    clash e = ground (arith, h, e)

module _ (s : Database) (h : IsBalanced s) where
  created-IsBalanced :
      (c : PaidCampaign)
      → IsNew s c
      → IsBalanced (record s { campaigns = s.campaigns ++ c ∷ []; new_id = s.new_id + 1 })
  unfolding reach
  created-IsBalanced c n =
      let (none_yet, nobody) = unowned s.campaigns c.id s.deliveries n.unused h.owned in
      record {
        accounted = All-snoc (IsAccounted s.deliveries) s.campaigns c h.accounted (record {
          impressions = n.unimpressed ∙ sym none_yet;
          reached = n.unreached ∙ sym (ap (λ l. count_distinct (map (λ d. d.viewer_id) l)) nobody);
          constrained = n.constrained;
        });
        distinct = h.distinct;
        owned =
            All-imp _ _ (λ d there. has_campaign-created s.campaigns c d there) s.deliveries
              h.owned;
      }

  updated-IsBalanced :
      (c d : PaidCampaign)
      → get_owned c.id c.owner_id s ≡ some c
      → IsUpdate c d
      → IsBalanced (record s { campaigns = replace_campaign d s.campaigns })
  unfolding replace_campaign get_owned
  updated-IsBalanced c d found u = record {
    accounted =
        All-map-if (IsAccounted s.deliveries) (λ x. x.id == d.id) (λ x. d) s.campaigns
          (λ x hit good.
            as_before (All-find (IsAccounted s.deliveries) _ s.campaigns c h.accounted found))
          h.accounted;
    distinct = h.distinct;
    owned =
        All-imp _ _
          (λ e there.
            has_campaign-mapped (λ x. if x.id == d.id then d else x) same_id s.campaigns e ∙ there)
          s.deliveries h.owned;
  }
    where
      as_before : IsAccounted s.deliveries c → IsAccounted s.deliveries d
      as_before a = record {
        impressions =
            u.same.impressions_delivered
            ∙ a.impressions
            ∙ ap (λ i. total i s.deliveries) (sym u.same.id);
        reached =
            u.same.reach_delivered ∙ a.reached ∙ ap (λ i. reach i s.deliveries) (sym u.same.id);
        constrained = u.constrained;
      }

      same_id : (x : PaidCampaign) → (if x.id == d.id then d else x).id ≡ x.id
      same_id x = ground arith

  selected-IsBalanced :
      (d : PaidDelivery)
      → d.impressed_at ≡ none
      → has_campaign s.campaigns d ≡ true
      → any (λ e. e.id == d.id) s.deliveries ≡ false
      → IsBalanced (record s { deliveries = s.deliveries ++ d ∷ []; new_id = s.new_id + 1 })
  selected-IsBalanced d fresh there unused = record {
    accounted =
        All-imp _ _
          (λ c a. record {
            impressions = a.impressions ∙ sym (total-selected c.id s.deliveries d fresh);
            reached = a.reached ∙ sym (reach-selected c.id s.deliveries d fresh);
            constrained = a.constrained;
          })
          s.campaigns h.accounted;
    distinct = unique-snoc (λ e. e.id) s.deliveries d h.distinct unused;
    owned = All-snoc _ s.deliveries d h.owned there;
  }

same_rows :
    (s t : Database)
    → t.campaigns ≡ s.campaigns
    → t.deliveries ≡ s.deliveries
    → IsBalanced s
    → IsBalanced t
same_rows s t c d h = record {
  accounted =
      subst (λ rows. All (IsAccounted t.deliveries) rows) (sym c)
        (subst (λ rows. All (IsAccounted rows) s.campaigns) (sym d) h.accounted);
  distinct = subst (λ rows. unique (λ e. e.id) rows ≡ true) (sym d) h.distinct;
  owned =
      subst (λ rows. All (λ e. has_campaign rows e ≡ true) t.deliveries) (sym c)
        (subst (λ rows. All (λ e. has_campaign s.campaigns e ≡ true) rows) (sym d) h.owned);
}

pub Step-IsBalanced : (s t : Database) → Step s t → IsBalanced s → IsBalanced t
Step-IsBalanced s t stay h = h
Step-IsBalanced s t (created c n) h = created-IsBalanced s h c n
Step-IsBalanced s t (updated c d found u) h = updated-IsBalanced s h c d found u
Step-IsBalanced s t (selected d fresh there unused) h = selected-IsBalanced s h d fresh there unused
Step-IsBalanced s t (recorded c d i k) h = recorded-IsBalanced s h c d i k
Step-IsBalanced s t (issued x fresh unused) h = same_rows s _ refl refl h
Step-IsBalanced s t (consumed x found fresh live) h = same_rows s _ refl refl h
