-- ===== src/Paid/Candidates/Snapshot.antt =====
-- The snapshot of the first page is one that its cursor can carry.
use connextion_z_luna.Prelude.{
  ℕ, Bool, true, false, ◌≡◌, refl, ◌∙◌, not, ◌&&◌, leb, ◌==◌, ◌≤◌, List, [], ◌∷◌, map, any, all,
  length, arith,
}
use connextion_z_luna.Prelude.Rows.{unique}
use connextion_z_luna.Prelude.Part.{
  IsPart, IsPart-trans, map-IsPart, count_distinct-unique, unique-of_map, any-map, length-map,
}
use connextion_z_luna.Paid.Model.{PaidCampaign}
use connextion_z_luna.Paid.Delivery.{PaidCandidate}
use connextion_z_luna.Paid.Cursor.{is_snapshot}
use connextion_z_luna.Paid.Cursor.RoundTrip.{IsCursor, is_uuid}
use connextion_z_luna.Paid.Candidates.{candidate_of, identity, unique_posts}
use connextion_z_luna.Paid.Candidates.Drawn.{holds}
use connextion_z_luna.Paid.Candidates.Parts.{IsFrom}
use connextion_z_luna.Paid.Candidates.Distinct.{unique_posts-IsPart, unique_posts-unique}

-- Identifiers of 128 bits.
abbrev pub has_uuids : PaidCampaign → Bool
has_uuids c = is_uuid c.id && is_uuid c.post_id

any-of_all :
    {A : Type 0} (test : A → Bool) (xs : List A)
    → all test xs ≡ true
    → any (λ x. not (test x)) xs ≡ false
any-of_all test [] h = refl
any-of_all test (x ∷ xs) h = ground (arith, any-of_all test xs)

all-of_any :
    {A : Type 0} (test fine : A → Bool) (xs : List A)
    → ((x : A) → test x ≡ true → fine x ≡ true)
    → any (λ x. not (test x)) xs ≡ false
    → all fine xs ≡ true
all-of_any test fine [] f h = refl
all-of_any test fine (x ∷ xs) f h = ground (arith, f x, all-of_any test fine xs f)

-- Both identifiers of a pair.
abbrev are_uuids : ℕ × ℕ → Bool
are_uuids p = is_uuid p.0 && is_uuid p.1

module _ (campaigns : List PaidCampaign) (known : all has_uuids campaigns ≡ true)
    (different : unique (λ c. c.id) campaigns ≡ true) (ranked : List PaidCampaign)
    (from : IsFrom ranked campaigns) (few : length ranked ≤ 100) where
  abbrev pub shown_posts : List PaidCandidate
  shown_posts = unique_posts [] (map candidate_of ranked)

  abbrev pub identities : List (ℕ × ℕ)
  identities = map identity shown_posts

  part : IsPart (λ p. p.0) identities (map identity (map candidate_of campaigns))
  part =
      map-IsPart identity (λ p. p.0) shown_posts (map candidate_of campaigns)
        (IsPart-trans (λ c. c.paid_campaign_id) shown_posts (map candidate_of ranked)
          (map candidate_of campaigns) (unique_posts-IsPart [] (map candidate_of ranked))
          (map-IsPart candidate_of (λ c. c.paid_campaign_id) ranked campaigns from))

  pub identities-unique : unique (λ p. p.0) identities ≡ true
  identities-unique = part.distinct (
      unique-of_map identity (λ p. p.0) (map candidate_of campaigns)
      ∙ unique-of_map candidate_of (λ c. c.paid_campaign_id) campaigns
      ∙ different)

  pub posts-unique : unique (λ p. p.1) identities ≡ true
  posts-unique =
      unique-of_map identity (λ p. p.1) shown_posts
      ∙ unique_posts-unique [] (map candidate_of ranked)

  no_stranger : any (λ p. not (are_uuids p)) identities ≡ false
  no_stranger =
      part.members (λ p. not (are_uuids p))
        (any-map identity (λ p. not (are_uuids p)) (map candidate_of campaigns)
          ∙ any-map candidate_of (λ c. not (are_uuids (identity c))) campaigns
          ∙ any-of_all has_uuids campaigns known)

  length-identities : length identities ≤ 100
  length-identities =
      let candidates = unique_posts-IsPart [] (map candidate_of ranked) in
      omega (
        arith,
        length-map identity shown_posts,
        candidates.shorter,
        length-map candidate_of ranked,
        few,
      )

  pub snapshot-IsCursor :
      (id : ℕ)
      → leb 1 (length identities) ≡ true
      → holds id identities ≡ true
      → IsCursor (record { identities = identities; last_campaign_id = id })
  unfolding is_snapshot
  snapshot-IsCursor id some_identity there = record {
    snapshot =
        conditions (length identities) _ _ _ some_identity length-identities
          (count_distinct-unique (λ p. p.0) identities identities-unique)
          (count_distinct-unique (λ p. p.1) identities posts-unique) there;
    campaigns = all-of_any are_uuids (λ p. is_uuid p.0) identities (λ p h. first _ _ h) no_stranger;
    posts = all-of_any are_uuids (λ p. is_uuid p.1) identities (λ p h. second _ _ h) no_stranger;
  }
    where
      conditions :
          (n a b : ℕ) (c : Bool)
          → leb 1 n ≡ true
          → n ≤ 100
          → a ≡ n
          → b ≡ n
          → c ≡ true
          → (leb 1 n && leb n 100 && a == n && b == n && c) ≡ true
      conditions n a b c h k l m o = ground arith

      first : (a b : Bool) → (a && b) ≡ true → a ≡ true
      first a b h = ground arith

      second : (a b : Bool) → (a && b) ≡ true → b ≡ true
      second a b h = ground arith
