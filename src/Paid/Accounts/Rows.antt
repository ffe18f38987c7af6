-- ===== src/Paid/Accounts/Rows.antt =====
-- Rules for what holds of all rows, and campaigns that stay when rows change.
use connextion_z_luna.Prelude.{
  Bool, true, ◌≡◌, refl, subst, some, List, [], ◌∷◌, ◌++◌, map, find, All, arith, Bool-cases, inl,
  inr, if◌then◌else◌,
}
use connextion_z_luna.Paid.Model.{PaidCampaign, PaidDelivery}
use connextion_z_luna.Paid.Accounts.{has_campaign}

-- Rules for `All`.
module _ {A : Type 0} (P Q : A → Type 0) where
  pub All-imp : ((a : A) → P a → Q a) → (xs : List A) → All P xs → All Q xs
  All-imp f [] h = tt
  All-imp f (x ∷ xs) h = (f x h.0, All-imp f xs h.1)

module _ {A : Type 0} (P : A → Type 0) where
  pub All-snoc : (xs : List A) (x : A) → All P xs → P x → All P (xs ++ x ∷ [])
  All-snoc [] x h p = (p, tt)
  All-snoc (y ∷ xs) x h p = (h.0, All-snoc xs x h.1 p)

  pub All-find : (test : A → Bool) (xs : List A) (x : A) → All P xs → find test xs ≡ some x → P x
  All-find test [] x h e = absurd cc
  All-find test (y ∷ xs) x h e = elim (Bool-cases (test y)) [
    | inl hit ↦ subst P (same (rw hit at e)) h.0
    | inr miss ↦ All-find test xs x h.1 (rw miss at e)
  ]
    where
      same : some y ≡ some x → y ≡ x
      same p = cc

  pub All-map-if :
      (test : A → Bool) (f : A → A) (xs : List A)
      → ((a : A) → test a ≡ true → P a → P (f a))
      → All P xs
      → All P (map (λ a. if test a then f a else a) xs)
  All-map-if test f [] g h = tt
  All-map-if test f (x ∷ xs) g h = elim (Bool-cases (test x)) [
    | inl hit ↦ rw hit (g x hit h.0, All-map-if test f xs g h.1)
    | inr miss ↦ rw miss (h.0, All-map-if test f xs g h.1)
  ]

-- A campaign more or a changed campaign keeps the campaigns that are there.
pub has_campaign-created :
    (campaigns : List PaidCampaign) (c : PaidCampaign) (d : PaidDelivery)
    → has_campaign campaigns d ≡ true
    → has_campaign (campaigns ++ c ∷ []) d ≡ true
has_campaign-created [] c d h = absurd cc
has_campaign-created (x ∷ campaigns) c d h = ground (arith, has_campaign-created campaigns c d)

pub has_campaign-mapped :
    (f : PaidCampaign → PaidCampaign) (same : (c : PaidCampaign) → (f c).id ≡ c.id)
    (campaigns : List PaidCampaign) (d : PaidDelivery)
    → has_campaign (map f campaigns) d ≡ has_campaign campaigns d
has_campaign-mapped f same [] d = refl
has_campaign-mapped f same (x ∷ campaigns) d = rw (same x, has_campaign-mapped f same campaigns d)
