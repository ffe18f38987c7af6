-- ===== src/Paid/Candidates/Parts.antt =====
-- The ranked candidates come from different campaigns of the table, a hundred at most.
use connextion_z_luna.Prelude.{
  ℕ, zero, suc, Bool, true, false, ◌≡◌, sym, subst, ap, ◌∙◌, not, ◌&&◌, ◌||◌, ◌≤◌, leb, List, [],
  ◌∷◌, map, filter, take, length, sorted_by, arith, if◌then◌else◌,
}
use connextion_z_luna.Prelude.Part.{
  IsPart, IsPart-refl, IsPart-trans, IsPart-cons, IsPart-skip, filter-IsPart, take-IsPart,
  sorted_by-IsPart, map-IsPart,
}
use connextion_z_luna.Errors.{Error, ok, err, ◌>>=◌}
use connextion_z_luna.Exec.Returns.{ok_injective, err_is_not_ok}
use connextion_z_luna.Paid.Model.{PaidCampaign, User, Tags, is_active_account}
use connextion_z_luna.Paid.Frequency.{PaidImpressionHistoryReader}
use connextion_z_luna.Paid.Database.{
  Database, get_eligible, is_deliverable, is_promotable, is_created_before, is_hidden,
}
use connextion_z_luna.Paid.Eligibility.{
  eligible, evaluate, keep_eligible, viewer_tags, get_eligible_campaigns,
}
use connextion_z_luna.Paid.Rules.{>>=-ok, guard-ok}
use connextion_z_luna.Paid.Ranking.{Key, key, key_lt, keyed, rank_eligible}

-- Campaigns of the table.
abbrev pub IsFrom : List PaidCampaign → List PaidCampaign → Type 0
IsFrom = IsPart (λ c. c.id)

length-take : (n : ℕ) (campaigns : List PaidCampaign) → length (take n campaigns) ≤ n
length-take zero campaigns = omega arith
length-take (suc n) [] = omega arith
length-take (suc n) (c ∷ campaigns) = omega (arith, length-take n campaigns)

get_eligible-IsFrom :
    (now limit : ℕ) (wanted : ℕ → Bool) (s : Database) (found : List PaidCampaign)
    → get_eligible now limit wanted s ≡ ok found
    → IsFrom found s.campaigns × (length found ≤ limit)
unfolding get_eligible
get_eligible-IsFrom now limit wanted s found h =
    by_limit (leb 1 limit && leb limit 100)
      (filter (λ c. wanted c.id && is_deliverable now c && is_promotable c s) s.campaigns)
      (filter-IsPart (λ c. c.id) _ s.campaigns) h
  where
    by_limit :
        (b : Bool) (kept : List PaidCampaign)
        → IsFrom kept s.campaigns
        → (if b
            then ok (take limit (sorted_by is_created_before kept))
            else err (Error.value_error "Paid candidate limit must be between 1 and 100"))
          ≡ ok found
        → IsFrom found s.campaigns × (length found ≤ limit)
    by_limit false kept p e = absurd (err_is_not_ok e)
    by_limit true kept p e =
        subst (λ cs. IsFrom cs s.campaigns × (length cs ≤ limit)) (ok_injective e)
          (
            IsPart-trans (λ c. c.id) _ (sorted_by is_created_before kept) s.campaigns
                (take-IsPart (λ c. c.id) limit (sorted_by is_created_before kept))
                (IsPart-trans (λ c. c.id) _ kept s.campaigns
                  (sorted_by-IsPart (λ c. c.id) is_created_before kept) p),
            length-take limit (sorted_by is_created_before kept),
          )

module _ (history : PaidImpressionHistoryReader) (viewer : User) (now : ℕ) (s : Database) where
  keep_eligible-IsFrom :
      (tags : Tags) (campaigns kept : List PaidCampaign)
      → keep_eligible history viewer tags now s campaigns ≡ ok kept
      → IsFrom kept campaigns
  unfolding keep_eligible
  keep_eligible-IsFrom tags [] kept h =
      subst (λ cs. IsFrom cs []) (ok_injective h) (IsPart-refl (λ c. c.id) [])
  keep_eligible-IsFrom tags (c ∷ rest) kept h =
      let (e, evaluated, continued) =
        >>=-ok (evaluate history c viewer tags now s)
          (λ e.
            keep_eligible history viewer tags now s rest
            >>= (λ others. ok (if eligible e then c ∷ others else others)))
          kept h in
      let (others, found, same) =
        >>=-ok (keep_eligible history viewer tags now s rest)
          (λ others. ok (if eligible e then c ∷ others else others)) kept continued in
      subst (λ cs. IsFrom cs (c ∷ rest)) (ok_injective same)
        (either (eligible e) others (keep_eligible-IsFrom tags rest others found))
    where
      either :
          (b : Bool) (others : List PaidCampaign)
          → IsFrom others rest
          → IsFrom (if b then c ∷ others else others) (c ∷ rest)
      either true others p = IsPart-cons (λ c. c.id) c others rest p
      either false others p = IsPart-skip (λ c. c.id) c others rest p

  pub get_eligible_campaigns-IsFrom :
      (limit : ℕ) (wanted : ℕ → Bool) (kept : List PaidCampaign)
      → get_eligible_campaigns history viewer now limit wanted s ≡ ok kept
      → IsFrom kept s.campaigns × (length kept ≤ limit)
  unfolding get_eligible_campaigns
  get_eligible_campaigns-IsFrom limit wanted kept h =
      let (is_active, rest) =
        guard-ok (not (is_active_account viewer.status) || viewer.is_deleted)
          (Error.permission_error "Account is not active") _ kept h in
      let (found, some_found, continued) =
        >>=-ok (get_eligible now limit wanted s)
          (λ campaigns.
            let visible = filter (λ c. not (is_hidden viewer.id c.owner_id s)) campaigns in
            keep_eligible history viewer (viewer_tags viewer visible s) now s visible)
          kept rest in
      let visible = filter (λ c. not (is_hidden viewer.id c.owner_id s)) found in
      let (of_table, few) = get_eligible-IsFrom now limit wanted s found some_found in
      let of_found =
        IsPart-trans (λ c. c.id) kept visible found
          (keep_eligible-IsFrom (viewer_tags viewer visible s) visible kept continued)
          (filter-IsPart (λ c. c.id) (λ c. not (is_hidden viewer.id c.owner_id s)) found) in
      (
        IsPart-trans (λ c. c.id) kept found s.campaigns of_found of_table,
        omega (arith, of_found.shorter),
      )

map-keyed :
    (moment : ℕ) (campaigns : List PaidCampaign) (pairs : List (Key × PaidCampaign))
    → keyed moment campaigns ≡ ok pairs
    → map (λ p. p.1) pairs ≡ campaigns
unfolding keyed
map-keyed moment [] pairs h = ap (map (λ p. p.1)) (sym (ok_injective h))
map-keyed moment (c ∷ rest) pairs h =
    let (k, found, continued) =
      >>=-ok (key moment c) (λ k. keyed moment rest >>= (λ others. ok ((k, c) ∷ others))) pairs h in
    let (others, rest_found, same) =
      >>=-ok (keyed moment rest) (λ others. ok ((k, c) ∷ others)) pairs continued in
    ap (map (λ p. p.1)) (sym (ok_injective same))
    ∙ ap (λ cs. c ∷ cs) (map-keyed moment rest others rest_found)

pub rank_eligible-IsFrom :
    (moment : ℕ) (campaigns ranked : List PaidCampaign)
    → rank_eligible moment campaigns ≡ ok ranked
    → IsFrom ranked campaigns
unfolding rank_eligible
rank_eligible-IsFrom moment campaigns ranked h =
    let (pairs, found, same) =
      >>=-ok (keyed moment campaigns)
        (λ pairs. ok (map (λ p. p.1) (sorted_by (λ a b. key_lt a.0 b.0) pairs))) ranked h in
    subst (λ cs. IsFrom cs campaigns) (ok_injective same)
      (subst (IsFrom (map (λ p. p.1) (sorted_by (λ a b. key_lt a.0 b.0) pairs)))
        (map-keyed moment campaigns pairs found)
        (map-IsPart (λ p. p.1) (λ c. c.id) (sorted_by (λ a b. key_lt a.0 b.0) pairs) pairs
          (sorted_by-IsPart (λ p. p.1.id) (λ a b. key_lt a.0 b.0) pairs)))
