-- ===== src/Paid/Ranking/Order.antt =====
-- The ranking is a permutation of the campaigns, in which none leads one in front of it.
use mathlib.Core.List.{Perm}
use connextion_z_luna.Prelude.{
  ℕ, true, false, ◌≡◌, refl, subst, ap, ◌&&◌, ◌||◌, ltb, ◌==◌, List, [], ◌∷◌, map, All, sorted_by,
  arith, if◌then◌else◌, Bool-cases, inl, inr,
}
use connextion_z_luna.Prelude.Sorted.{
  IsSorted, IsOrdered-IsSorted, sorted_by-All, sorted_by-perm, sorted_by-IsOrdered,
}
use connextion_z_luna.Errors.{ok}
use connextion_z_luna.Paid.Model.{PaidCampaign}
use connextion_z_luna.Paid.Constraints.{campaign_constraints}
use connextion_z_luna.Paid.Ranking.{
  side, Key, fraction_lt, fraction_eq, key_lt, keyed, rank_eligible,
}
use connextion_z_luna.Paid.Ranking.Pace.{limits, leads}
use connextion_z_luna.Paid.Ranking.Leads.{key_by, leads_by-key_lt}
use connextion_z_luna.Paid.Ranking.Keys.{HasPositive, key_lt_trans}
use connextion_z_luna.Paid.Ranking.Paced.{IsPaced, constraints-IsPaced, IsPaced-HasPositive}

key_lt-asym : (a b : Key) → key_lt a b ≡ true → key_lt b a ≡ false
unfolding key_lt fraction_lt fraction_eq
key_lt-asym a b h =
    lexicographic (side a.pace b.pace) (side b.pace a.pace) (side a.spare b.spare)
      (side b.spare a.spare) a.impressions b.impressions a.id b.id h
  where
    lexicographic :
        (p q r s i j m n : ℕ)
        → (if p == q then (if r == s then ltb i j || (i == j && ltb m n) else ltb r s) else ltb p q)
          ≡ true
        → (if q == p then (if s == r then ltb j i || (j == i && ltb n m) else ltb s r) else ltb q p)
          ≡ false
    lexicographic p q r s i j m n h = ground arith

-- A campaign whose row satisfies the constraints, with its key.
record HasKey (moment : ℕ) (p : Key × PaidCampaign) : Type 0 where
  pub is_paced : IsPaced moment p.1
  pub is_key : key_by moment p.1 (limits p.1) ≡ p.0

keyed-returns :
    (moment : ℕ) (campaigns : List PaidCampaign)
    → All (λ c. campaign_constraints c ≡ true) campaigns
    → (pairs : List (Key × PaidCampaign)) × (keyed moment campaigns ≡ ok pairs)
      × All (HasKey moment) pairs
      × (map (λ p. p.1) pairs ≡ campaigns)
unfolding keyed
keyed-returns moment [] h = ([], refl, tt, refl)
keyed-returns moment (c ∷ rest) (h, hs) =
    let p = constraints-IsPaced moment c h in
    let (pairs, es, ks, same) = keyed-returns moment rest hs in
    (
      (key_by moment c (limits c), c) ∷ pairs,
      rw (p.found, es),
      (record { is_paced = p; is_key = refl }, ks),
      ap (λ cs. c ∷ cs) same,
    )

HasKey-HasPositive : (moment : ℕ) (p : Key × PaidCampaign) → HasKey moment p → HasPositive p.0
HasKey-HasPositive moment p h =
    subst HasPositive h.is_key (IsPaced-HasPositive moment p.1 h.is_paced)

-- What leads a campaign has the smaller key.
no_less-leads :
    (moment : ℕ) (p q : Key × PaidCampaign)
    → HasKey moment p
    → HasKey moment q
    → key_lt q.0 p.0 ≡ false
    → leads moment q.1 p.1 ≡ false
no_less-leads moment p q h k no_less = elim (Bool-cases (leads moment q.1 p.1)) [
  | inl leading ↦
      let less =
        leads_by-key_lt moment q.1 p.1 (limits q.1) (limits p.1) k.is_paced.limits_positive
          h.is_paced.limits_positive k.is_paced.window_positive h.is_paced.window_positive
          leading in
      let same_q = k.is_key in let same_p = h.is_key in absurd cc
  | inr not_leading ↦ not_leading
]

module _ (moment : ℕ) where
  All-leads :
      (p : Key × PaidCampaign) (pairs : List (Key × PaidCampaign))
      → HasKey moment p
      → All (HasKey moment) pairs
      → All (λ q. key_lt q.0 p.0 ≡ false) pairs
      → All (λ c. leads moment c p.1 ≡ false) (map (λ q. q.1) pairs)
  All-leads p [] h hs ks = tt
  All-leads p (q ∷ pairs) h (i, hs) (k, ks) =
      (no_less-leads moment p q h i k, All-leads p pairs h hs ks)

  IsSorted-leads :
      (pairs : List (Key × PaidCampaign))
      → All (HasKey moment) pairs
      → IsSorted (λ a b. key_lt a.0 b.0) pairs
      → IsSorted (leads moment) (map (λ q. q.1) pairs)
  IsSorted-leads [] hs ks = tt
  IsSorted-leads (p ∷ pairs) (h, hs) (k, ks) =
      (All-leads p pairs h hs k, IsSorted-leads pairs hs ks)

-- At any time, campaigns whose rows satisfy the CHECK constraints are ranked without an error: the
-- result is a permutation of them in which no campaign leads any of those in front of it. `leads`
-- compares the rows: a campaign with limits is late when less has been delivered towards every limit
-- than has elapsed of its window, and ahead when more has been towards some limit. Of two campaigns
-- with limits, one that is late leads one that is not; one that is not ahead leads one that is; and
-- of two with the same window, the one whose closest limit is further away leads. A campaign without limits follows one that is late, and leads
-- one that is not late and has delivered something; of two without limits, the one with fewer
-- impressions leads, and with as many of them the one with the smaller identifier.
pub rank_eligible-leads :
    (moment : ℕ) (campaigns : List PaidCampaign)
    → All (λ c. campaign_constraints c ≡ true) campaigns
    → (ranked : List PaidCampaign) × (rank_eligible moment campaigns ≡ ok ranked)
      × Perm ranked campaigns
      × IsSorted (leads moment) ranked
unfolding rank_eligible
rank_eligible-leads moment campaigns h =
    let (pairs, found, keys, same) = keyed-returns moment campaigns h in
    let before = (λ (a b : Key × PaidCampaign). key_lt a.0 b.0) in
    let sorted = sorted_by before pairs in
    let sorted_keys = sorted_by-All before (HasKey moment) pairs keys in
    (
      map (λ p. p.1) sorted,
      rw found,
      subst (λ cs. Perm (map (λ p. p.1) sorted) cs) same (sorted_by-perm before (λ p. p.1) pairs),
      IsSorted-leads moment sorted sorted_keys (
          IsOrdered-IsSorted before
            (λ a b c i j k.
              key_lt_trans a.0 b.0 c.0 (HasKey-HasPositive moment a i)
                (HasKey-HasPositive moment b j) (HasKey-HasPositive moment c k))
            sorted sorted_keys (sorted_by-IsOrdered before (λ a b. key_lt-asym a.0 b.0) pairs)),
    )
