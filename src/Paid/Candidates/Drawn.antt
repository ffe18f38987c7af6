-- ===== src/Paid/Candidates/Drawn.antt =====
-- What a page shows of a snapshot, and what is left for the next one.
use connextion_z_luna.Prelude.{
  ℕ, zero, suc, Bool, true, false, ◌≡◌, refl, sym, subst, ◌∙◌, ◌||◌, ltb, ◌==◌, ◌≤◌, List, [], ◌∷◌,
  ◌++◌, map, any, take, length, contains, count_distinct, arith, Bool-cases, inl, inr,
}
use connextion_z_luna.Prelude.Rows.{unique}
use connextion_z_luna.Paid.Rules.{==_sound}
use connextion_z_luna.Paid.Delivery.{PaidCandidate}
use connextion_z_luna.Paid.Candidates.{candidate, after, keep, last_of}

-- What was shown, drawn from the identities in their order, each once at most.
pub data IsDrawn : List PaidCandidate → List (ℕ × ℕ) → Type 0 where
  done : (identities : List (ℕ × ℕ)) → IsDrawn [] identities
  skip :
      {shown : List PaidCandidate} {identities : List (ℕ × ℕ)} (p : ℕ × ℕ)
      → IsDrawn shown identities
      → IsDrawn shown (p ∷ identities)
  draw :
      {shown : List PaidCandidate} {identities : List (ℕ × ℕ)} (p : ℕ × ℕ)
      → IsDrawn shown identities
      → IsDrawn (candidate p ∷ shown) (p ∷ identities)

abbrev pub holds : ℕ → List (ℕ × ℕ) → Bool
holds id identities = any (λ p. p.0 == id) identities

pub keep-IsDrawn :
    (test : ℕ × ℕ → Bool) (identities : List (ℕ × ℕ)) (n : ℕ)
    → IsDrawn (take n (keep test identities)) identities
unfolding keep
keep-IsDrawn test identities zero = done identities
keep-IsDrawn test [] (suc n) = done []
keep-IsDrawn test (p ∷ identities) (suc n) = elim (Bool-cases (test p)) [
  | inl hit ↦ rw hit (draw p (keep-IsDrawn test identities n))
  | inr miss ↦ rw miss (skip p (keep-IsDrawn test identities (suc n)))
]

keep-hit :
    (test : ℕ × ℕ → Bool) (p : ℕ × ℕ) (identities : List (ℕ × ℕ))
    → test p ≡ true
    → keep test (p ∷ identities) ≡ candidate p ∷ keep test identities
unfolding keep
keep-hit test p identities hit = rw hit

keep-miss :
    (test : ℕ × ℕ → Bool) (p : ℕ × ℕ) (identities : List (ℕ × ℕ))
    → test p ≡ false
    → keep test (p ∷ identities) ≡ keep test identities
unfolding keep
keep-miss test p identities miss = rw miss

last_of-cons :
    (c : PaidCandidate) (n : ℕ) (rest : List PaidCandidate)
    → ltb n (length rest) ≡ true
    → last_of (c ∷ take (suc n) rest) ≡ last_of (take (suc n) rest)
last_of-cons c n [] h = absurd (nothing n h)
  where
    nothing : (n : ℕ) → ltb n 0 ≡ true → ⊥
    nothing n h = ground arith
last_of-cons c n (d ∷ rest) h = refl

-- The campaign of the last candidate of a page that is full is among the identities.
pub last_of-keep :
    (test : ℕ × ℕ → Bool) (identities : List (ℕ × ℕ)) (n : ℕ)
    → ltb n (length (keep test identities)) ≡ true
    → holds (last_of (take (suc n) (keep test identities))) identities ≡ true
unfolding keep
last_of-keep test [] n h = ground arith
last_of-keep test (p ∷ identities) n h = elim (Bool-cases (test p)) [
  | inr miss ↦
      subst (λ kept. holds (last_of (take (suc n) kept)) (p ∷ identities) ≡ true)
        (sym (keep-miss test p identities miss))
        (later _ (last_of-keep test identities n (rw miss at h)))
  | inl hit ↦
      subst (λ kept. holds (last_of (take (suc n) kept)) (p ∷ identities) ≡ true)
        (sym (keep-hit test p identities hit))
        (from_here (last_of-keep test identities) n (rw hit at h))
]
  where
    later : (id : ℕ) → holds id identities ≡ true → (p.0 == id || holds id identities) ≡ true
    later id h = ground arith

    from_here :
        ((m : ℕ)
          → ltb m (length (keep test identities)) ≡ true
          → holds (last_of (take (suc m) (keep test identities))) identities ≡ true)
        → (n : ℕ) → ltb n (suc (length (keep test identities))) ≡ true
        → holds (last_of (candidate p ∷ take n (keep test identities))) (p ∷ identities) ≡ true
    from_here again zero h = ground arith
    from_here again (suc n) h =
        subst (λ k. holds k (p ∷ identities) ≡ true)
          (sym (last_of-cons (candidate p) n (keep test identities) (ground arith)))
          (later _ (again n (ground arith)))

==_refl : (n : ℕ) → (n == n) ≡ true
==_refl n = ground arith

-- Another one of the identities, which differ, is not the first.
apart :
    (id : ℕ) (p : ℕ × ℕ) (identities : List (ℕ × ℕ))
    → unique (λ q. q.0) (p ∷ identities) ≡ true
    → holds id identities ≡ true
    → (p.0 == id) ≡ false
apart id p identities u h = elim (Bool-cases (p.0 == id)) [
  | inr miss ↦ miss
  | inl hit ↦ absurd (twice (subst (λ k. holds k identities ≡ true) (sym (==_sound p.0 id hit)) h))
]
  where
    twice : holds p.0 identities ≡ true → ⊥
    twice k = ground arith

after-later :
    (id : ℕ) (p : ℕ × ℕ) (identities : List (ℕ × ℕ))
    → unique (λ q. q.0) (p ∷ identities) ≡ true
    → holds id identities ≡ true
    → after id (p ∷ identities) ≡ after id identities
unfolding after
after-later id p identities u h = rw (apart id p identities u h)

after-first : (p : ℕ × ℕ) (identities : List (ℕ × ℕ)) → after p.0 (p ∷ identities) ≡ identities
unfolding after
after-first p identities = rw (==_refl p.0)

unique-rest :
    (p : ℕ × ℕ) (identities : List (ℕ × ℕ))
    → unique (λ q. q.0) (p ∷ identities) ≡ true
    → unique (λ q. q.0) identities ≡ true
unique-rest p identities u = ground arith

-- What is drawn after the last candidate of a page continues the page.
pub IsDrawn-append :
    (test : ℕ × ℕ → Bool) (identities : List (ℕ × ℕ)) (n : ℕ) (shown : List PaidCandidate)
    → unique (λ q. q.0) identities ≡ true
    → ltb n (length (keep test identities)) ≡ true
    → IsDrawn shown (after (last_of (take (suc n) (keep test identities))) identities)
    → IsDrawn (take (suc n) (keep test identities) ++ shown) identities
unfolding keep
IsDrawn-append test [] n shown u h d = absurd (nothing n h)
  where
    nothing : (n : ℕ) → ltb n 0 ≡ true → ⊥
    nothing n h = ground arith
IsDrawn-append test (p ∷ identities) n shown u h d = elim (Bool-cases (test p)) [
  | inr miss ↦ rw miss (
      skip p (
        IsDrawn-append test identities n shown (unique-rest p identities u) (rw miss at h) (
          subst (IsDrawn shown)
            (after-later _ p identities u (last_of-keep test identities n (rw miss at h)))
            (rw miss at d))))
  | inl hit ↦ rw hit (from_here (IsDrawn-append test identities) n (rw hit at h) (rw hit at d))
]
  where
    from_here :
        ((m : ℕ) (shown : List PaidCandidate)
          → unique (λ q. q.0) identities ≡ true
          → ltb m (length (keep test identities)) ≡ true
          → IsDrawn shown (after (last_of (take (suc m) (keep test identities))) identities)
          → IsDrawn (take (suc m) (keep test identities) ++ shown) identities)
        → (n : ℕ) → ltb n (suc (length (keep test identities))) ≡ true
        → IsDrawn shown
            (after (last_of (candidate p ∷ take n (keep test identities))) (p ∷ identities))
        → IsDrawn (candidate p ∷ (take n (keep test identities) ++ shown)) (p ∷ identities)
    from_here again zero h d = draw p (subst (IsDrawn shown) (after-first p identities) d)
    from_here again (suc n) h d = draw p (
        again n shown (unique-rest p identities u) (ground arith) (
          subst (IsDrawn shown)
            (after-later (last_of (take (suc n) (keep test identities))) p identities u
              (last_of-keep test identities n (ground arith)))
            (subst (λ k. IsDrawn shown (after k (p ∷ identities)))
              (last_of-cons (candidate p) n (keep test identities) (ground arith)) d)))

pub holds-after :
    (id last_id : ℕ) (identities : List (ℕ × ℕ))
    → holds id (after last_id identities) ≡ true
    → holds id identities ≡ true
unfolding after
holds-after id last_id [] h = h
holds-after id last_id (p ∷ identities) h = ground (arith, holds-after id last_id identities)

pub unique-after :
    (last_id : ℕ) (identities : List (ℕ × ℕ))
    → unique (λ q. q.0) identities ≡ true
    → unique (λ q. q.0) (after last_id identities) ≡ true
unfolding after
unique-after last_id [] u = u
unique-after last_id (p ∷ identities) u = ground (arith, unique-after last_id identities)

-- What follows a campaign that follows another one.
pub after-after :
    (id last_id : ℕ) (identities : List (ℕ × ℕ))
    → unique (λ q. q.0) identities ≡ true
    → holds id (after last_id identities) ≡ true
    → after id identities ≡ after id (after last_id identities)
unfolding after
after-after id last_id [] u h = refl
after-after id last_id (p ∷ identities) u h = elim (Bool-cases (p.0 == last_id)) [
  | inl hit ↦ rw hit (after-later id p identities u (rw hit at h))
  | inr miss ↦ rw miss (
      after-later id p identities u (holds-after id last_id identities (rw miss at h))
      ∙ after-after id last_id identities (unique-rest p identities u) (rw miss at h))
]

count_distinct-length :
    (identities : List (ℕ × ℕ)) → count_distinct (map (λ p. p.0) identities) ≤ length identities
count_distinct-length [] = omega arith
count_distinct-length (p ∷ identities) = ground (arith, count_distinct-length identities)

contains-map :
    (id : ℕ) (identities : List (ℕ × ℕ))
    → contains (map (λ p. p.0) identities) id ≡ holds id identities
contains-map id [] = refl
contains-map id (p ∷ identities) = ground (arith, contains-map id identities)

-- The check of `decode` that the campaigns differ.
pub unique_of_count :
    (identities : List (ℕ × ℕ))
    → count_distinct (map (λ p. p.0) identities) ≡ length identities
    → unique (λ q. q.0) identities ≡ true
unique_of_count [] h = refl
unique_of_count (p ∷ identities) h = ground (
  arith,
  contains-map p.0 identities,
  count_distinct-length identities,
  unique_of_count identities,
)
