-- ===== src/Paid/Ranking/Paced.antt =====
-- The key of a campaign whose row satisfies the CHECK constraints, in terms of its limits.
use connextion_z_luna.Prelude.{
  ℕ, Bool, true, false, ◌≡◌, refl, sym, subst, ap, ◌&&◌, ltb, leb, ◌==◌, ◌-◌, ◌<◌, Option, none,
  some, List, [], ◌∷◌, ◌++◌, map, All, arith, if◌then◌else◌, Bool-cases, inl, inr,
}
use connextion_z_luna.Errors.{ok}
use connextion_z_luna.Paid.Model.{PaidCampaign}
use connextion_z_luna.Paid.Constraints.{campaign_constraints, is_within}
use connextion_z_luna.Paid.Ranking.{
  side, fraction_lt, fraction, progress_to, both_progresses, key, whole, at_most_one, key_of,
  greatest, deficit_of, subtract, negate,
}
use connextion_z_luna.Paid.Ranking.Closest.{as_fraction, closest}
use connextion_z_luna.Paid.Ranking.Pace.{limit_of, limits, share}
use connextion_z_luna.Paid.Ranking.Leads.{key_by, positive-product}
use connextion_z_luna.Paid.Ranking.Keys.{HasPositive}

-- The part of the window that has elapsed, as the code computes it.
at_most_one-share :
    (n d : ℕ) → at_most_one (as_fraction (n, d)) ≡ as_fraction (if ltb n d then (n, d) else (1, 1))
unfolding fraction_lt
at_most_one-share n d = elim (Bool-cases (ltb n d)) [
  | inl less ↦ rw (same_test, less) refl
  | inr more ↦ rw (same_test, more) refl
]
  where
    same_test :
        ltb (side (as_fraction (n, d)) (whole 1)) (side (whole 1) (as_fraction (n, d))) ≡ ltb n d
    same_test = ground arith

fraction_lem : (n d : ℕ) → 0 < d → fraction n d ≡ ok (as_fraction (n, d))
unfolding fraction
fraction_lem n d h = rw (nonzero d h)
  where
    nonzero : (d : ℕ) → 0 < d → (d == 0) ≡ false
    nonzero d h = ground arith

progress_to_lem :
    (n : ℕ) (cap : Option ℕ)
    → is_within n cap ≡ true
    → progress_to n cap ≡ ok (map as_fraction (limit_of n cap))
unfolding progress_to
progress_to_lem n none h = refl
progress_to_lem n (some d) h = rw (fraction_lem n d (positive d h)) refl
  where
    positive : (d : ℕ) → is_within n (some d) ≡ true → 0 < d
    positive d h = ground arith

both_progresses-map :
    (ls ks : List (ℕ × ℕ))
    → both_progresses (map as_fraction ls) (map as_fraction ks) ≡ map as_fraction (ls ++ ks)
both_progresses-map [] ks = refl
both_progresses-map (l ∷ ls) ks = ap (λ fs. as_fraction l ∷ fs) (both_progresses-map ls ks)

limits-positive :
    (n m : ℕ) (a b : Option ℕ)
    → is_within n a ≡ true
    → is_within m b ≡ true
    → All (λ l. 0 < l.1) (limit_of n a ++ limit_of m b)
limits-positive n m none none h k = tt
limits-positive n m none (some d) h k = (ground arith, tt)
limits-positive n m (some d) none h k = (ground arith, tt)
limits-positive n m (some d) (some e) h k = (ground arith, (ground arith, tt))

-- What the CHECK constraints give the ranking.
pub record IsPaced (moment : ℕ) (c : PaidCampaign) : Type 0 where
  pub found : key moment c ≡ ok (key_by moment c (limits c))
  pub limits_positive : All (λ l. 0 < l.1) (limits c)
  pub window_positive : 0 < (share moment c).1

key_of-key_by :
    (moment : ℕ) (c : PaidCampaign)
    → key_of c
        (as_fraction (moment - c.start_at, c.end_at - c.start_at))
        (map as_fraction (limits c))
      ≡ key_by moment c (limits c)
key_of-key_by moment c =
    ap
      (λ elapsed. record {
        pace = negate (deficit_of elapsed (map as_fraction (limits c)));
        spare = negate (subtract (whole 1) (greatest (map as_fraction (limits c))));
        impressions = c.impressions_delivered;
        id = c.id;
      })
      (at_most_one-share (moment - c.start_at) (c.end_at - c.start_at))

share_positive : (moment : ℕ) (c : PaidCampaign) → 0 < (share moment c).1
share_positive moment c = elim (Bool-cases (ltb (moment - c.start_at) (c.end_at - c.start_at))) [
  | inl less ↦ rw less (positive (moment - c.start_at) (c.end_at - c.start_at) less)
  | inr more ↦ rw more (omega arith)
]
  where
    positive : (n d : ℕ) → ltb n d ≡ true → 0 < d
    positive n d h = ground arith

pub constraints-IsPaced :
    (moment : ℕ) (c : PaidCampaign) → campaign_constraints c ≡ true → IsPaced moment c
unfolding key campaign_constraints
constraints-IsPaced moment c h =
    let (open_window, impressions, reach) = parts _ _ _ _ _ _ _ _ h in
    record {
      found =
          rw
            (
              ordered c.start_at c.end_at open_window,
              fraction_lem (moment - c.start_at) (c.end_at - c.start_at)
                  (window c.start_at c.end_at open_window),
              progress_to_lem c.impressions_delivered c.max_impressions impressions,
              progress_to_lem c.reach_delivered c.max_reach reach,
              both_progresses-map (limit_of c.impressions_delivered c.max_impressions)
                  (limit_of c.reach_delivered c.max_reach),
            )
            (ap ok (key_of-key_by moment c));
      limits_positive =
          limits-positive c.impressions_delivered c.reach_delivered c.max_impressions c.max_reach
            impressions reach;
      window_positive = share_positive moment c;
    }
  where
    parts :
        (a b d e f g i j : Bool)
        → (a && b && d && e && f && g && i && j) ≡ true
        → (a ≡ true) × (f ≡ true) × (g ≡ true)
    parts a b d e f g i j h = ground arith

    window : (a b : ℕ) → ltb a b ≡ true → 0 < b - a
    window a b h = ground arith

    ordered : (a b : ℕ) → ltb a b ≡ true → leb b a ≡ false
    ordered a b h = ground arith

greatest-positive :
    (ls : List (ℕ × ℕ)) → All (λ l. 0 < l.1) ls → 0 < (greatest (map as_fraction ls)).over
greatest-positive [] h = omega arith
greatest-positive (l ∷ ls) h =
    let c = closest l ls h in subst (λ f. 0 < f.over) (sym c.is_greatest) c.positive

deficit-positive :
    (elapsed : ℕ × ℕ) (ls : List (ℕ × ℕ))
    → 0 < elapsed.1
    → All (λ l. 0 < l.1) ls
    → 0 < (deficit_of (as_fraction elapsed) (map as_fraction ls)).over
unfolding subtract
deficit-positive elapsed [] p h = omega arith
deficit-positive elapsed (l ∷ ls) p h =
    positive-product elapsed.1 (greatest (map as_fraction (l ∷ ls))).over p
      (greatest-positive (l ∷ ls) h)

pub IsPaced-HasPositive :
    (moment : ℕ) (c : PaidCampaign) → IsPaced moment c → HasPositive (key_by moment c (limits c))
unfolding negate subtract
IsPaced-HasPositive moment c p = record {
  pace = deficit-positive (share moment c) (limits c) p.window_positive p.limits_positive;
  spare =
      positive-product 1 (greatest (map as_fraction (limits c))).over (omega arith)
        (greatest-positive (limits c) p.limits_positive);
}
