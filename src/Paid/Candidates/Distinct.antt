-- ===== src/Paid/Candidates/Distinct.antt =====
-- The posts of a list of candidates, and what is drawn from it.
use connextion_z_luna.Prelude.{
  ℕ, Bool, true, false, ◌≡◌, refl, subst, ap, not, ◌&&◌, ◌||◌, ◌==◌, List, [], ◌∷◌, map, contains,
  arith, Bool-cases, inl, inr,
}
use connextion_z_luna.Prelude.Rows.{has_key, unique}
use connextion_z_luna.Prelude.Part.{IsPart, IsPart-refl, IsPart-cons, IsPart-skip}
use connextion_z_luna.Paid.Rules.{==_sound}
use connextion_z_luna.Paid.Delivery.{PaidCandidate}
use connextion_z_luna.Paid.Candidates.{candidate, identity, unique_posts, keep}
use connextion_z_luna.Paid.Candidates.Drawn.{IsDrawn, done, skip, draw}

-- What is drawn from different elements is different.
module _ (number : PaidCandidate → ℕ) where
  undrawn :
      (k : ℕ) {shown : List PaidCandidate} {identities : List (ℕ × ℕ)}
      → IsDrawn shown identities
      → has_key (λ p. number (candidate p)) k identities ≡ false
      → has_key number k shown ≡ false
  undrawn k (done identities) h = refl
  undrawn k (skip p d) h = undrawn k d (ground arith)
  undrawn k (draw p d) h = ground (arith, undrawn k d)

  pub drawn-unique :
      {shown : List PaidCandidate} {identities : List (ℕ × ℕ)}
      → IsDrawn shown identities
      → unique (λ p. number (candidate p)) identities ≡ true
      → unique number shown ≡ true
  drawn-unique (done identities) h = refl
  drawn-unique (skip p d) h = drawn-unique d (ground arith)
  drawn-unique (draw p d) h = ground (arith, undrawn (number (candidate p)) d, drawn-unique d)

pub unique_posts-IsPart :
    (seen_posts : List ℕ) (candidates : List PaidCandidate)
    → IsPart (λ c. c.paid_campaign_id) (unique_posts seen_posts candidates) candidates
unfolding unique_posts
unique_posts-IsPart seen_posts [] = IsPart-refl (λ c. c.paid_campaign_id) []
unique_posts-IsPart seen_posts (c ∷ rest) = elim (Bool-cases (contains seen_posts c.post_id)) [
  | inl hit ↦
      rw hit (IsPart-skip (λ c. c.paid_campaign_id) c _ rest (unique_posts-IsPart seen_posts rest))
  | inr miss ↦ rw miss (
      IsPart-cons (λ c. c.paid_campaign_id) c _ rest
        (unique_posts-IsPart (c.post_id ∷ seen_posts) rest))
]

differs :
    (k post_id : ℕ) (seen_posts : List ℕ)
    → contains seen_posts k ≡ true
    → contains seen_posts post_id ≡ false
    → (post_id == k) ≡ false
differs k post_id seen_posts h miss = elim (Bool-cases (post_id == k)) [
  | inr other ↦ other
  | inl same ↦
      absurd (clash (subst (λ n. contains seen_posts n ≡ false) (==_sound post_id k same) miss))
]
  where
    clash : contains seen_posts k ≡ false → ⊥
    clash m = ground arith

unseen :
    (k : ℕ) (seen_posts : List ℕ) (candidates : List PaidCandidate)
    → contains seen_posts k ≡ true
    → has_key (λ c. c.post_id) k (unique_posts seen_posts candidates) ≡ false
unfolding unique_posts
unseen k seen_posts [] h = refl
unseen k seen_posts (c ∷ rest) h = elim (Bool-cases (contains seen_posts c.post_id)) [
  | inl hit ↦ rw hit (unseen k seen_posts rest h)
  | inr miss ↦ rw miss (
      neither (differs k c.post_id seen_posts h miss)
        (unseen k (c.post_id ∷ seen_posts) rest (ground arith)))
]
  where
    neither : {a b : Bool} → a ≡ false → b ≡ false → (a || b) ≡ false
    neither h k = ground arith

pub unique_posts-unique :
    (seen_posts : List ℕ) (candidates : List PaidCandidate)
    → unique (λ c. c.post_id) (unique_posts seen_posts candidates) ≡ true
unfolding unique_posts
unique_posts-unique seen_posts [] = refl
unique_posts-unique seen_posts (c ∷ rest) = elim (Bool-cases (contains seen_posts c.post_id)) [
  | inl hit ↦ rw hit (unique_posts-unique seen_posts rest)
  | inr miss ↦ rw miss (
      both (unseen c.post_id (c.post_id ∷ seen_posts) rest (ground arith))
        (unique_posts-unique (c.post_id ∷ seen_posts) rest))
]
  where
    both : {a b : Bool} → a ≡ false → b ≡ true → (not a && b) ≡ true
    both h k = ground arith

-- Every candidate is one of its identities.
pub keep-identity :
    (candidates : List PaidCandidate) → keep (λ p. true) (map identity candidates) ≡ candidates
unfolding keep
keep-identity [] = refl
keep-identity (c ∷ candidates) = ap (λ cs. c ∷ cs) (keep-identity candidates)
