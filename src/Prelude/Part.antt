-- ===== src/Prelude/Part.antt =====
-- Lists that keep some of the elements of another list, in any order.
use connextion_z_luna.Prelude.{
  ℕ, zero, suc, Bool, true, false, ◌≡◌, refl, sym, ap, ◌∙◌, ◌||◌, ◌==◌, ◌≤◌, List, [], ◌∷◌, map,
  any, filter, take, length, contains, count_distinct, insert_by, sorted_by, arith, Bool-cases, inl,
  inr,
}
use connextion_z_luna.Prelude.Rows.{has_key, unique}

module _ {A : Type 0} (key : A → ℕ) where
  -- No new element, no new key twice, and no more elements.
  pub record IsPart (ys xs : List A) : Type 0 where
    pub members : (test : A → Bool) → any test xs ≡ false → any test ys ≡ false
    pub distinct : unique key xs ≡ true → unique key ys ≡ true
    pub shorter : length ys ≤ length xs

  pub IsPart-refl : (xs : List A) → IsPart xs xs
  IsPart-refl xs = record { members = λ test h. h; distinct = λ h. h; shorter = omega arith }

  pub IsPart-trans : (zs ys xs : List A) → IsPart zs ys → IsPart ys xs → IsPart zs xs
  IsPart-trans zs ys xs p q = record {
    members = λ test h. p.members test (q.members test h);
    distinct = λ h. p.distinct (q.distinct h);
    shorter = omega (arith, p.shorter, q.shorter);
  }

  IsPart-nil : (xs : List A) → IsPart [] xs
  IsPart-nil xs = record { members = λ test h. refl; distinct = λ h. refl; shorter = omega arith }

  pub IsPart-cons : (x : A) (ys xs : List A) → IsPart ys xs → IsPart (x ∷ ys) (x ∷ xs)
  IsPart-cons x ys xs p = record {
    members = λ test h. ground (arith, p.members test);
    distinct = λ h. ground (arith, p.members (λ r. key r == key x), p.distinct);
    shorter = omega (arith, p.shorter);
  }

  pub IsPart-skip : (x : A) (ys xs : List A) → IsPart ys xs → IsPart ys (x ∷ xs)
  IsPart-skip x ys xs p = record {
    members = λ test h. p.members test (ground arith);
    distinct = λ h. p.distinct (ground arith);
    shorter = omega (arith, p.shorter);
  }

  IsPart-swap : (x y : A) (xs : List A) → IsPart (y ∷ x ∷ xs) (x ∷ y ∷ xs)
  IsPart-swap x y xs = record {
    members = λ test h. ground arith;
    distinct = λ h. ground arith;
    shorter = omega arith;
  }

  pub filter-IsPart : (test : A → Bool) (xs : List A) → IsPart (filter test xs) xs
  filter-IsPart test [] = IsPart-nil []
  filter-IsPart test (x ∷ xs) = elim (Bool-cases (test x)) [
    | inl hit ↦ rw hit (IsPart-cons x (filter test xs) xs (filter-IsPart test xs))
    | inr miss ↦ rw miss (IsPart-skip x (filter test xs) xs (filter-IsPart test xs))
  ]

  pub take-IsPart : (n : ℕ) (xs : List A) → IsPart (take n xs) xs
  take-IsPart zero xs = IsPart-nil xs
  take-IsPart (suc n) [] = IsPart-nil []
  take-IsPart (suc n) (x ∷ xs) = IsPart-cons x (take n xs) xs (take-IsPart n xs)

  module _ (before : A → A → Bool) where
    insert_by-IsPart : (x : A) (xs : List A) → IsPart (insert_by before x xs) (x ∷ xs)
    unfolding insert_by
    insert_by-IsPart x [] = IsPart-refl (x ∷ [])
    insert_by-IsPart x (y ∷ ys) = elim (Bool-cases (before y x)) [
      | inl hit ↦ rw hit (
          IsPart-trans (y ∷ insert_by before x ys) (y ∷ x ∷ ys) (x ∷ y ∷ ys)
            (IsPart-cons y (insert_by before x ys) (x ∷ ys) (insert_by-IsPart x ys))
            (IsPart-swap x y ys))
      | inr miss ↦ rw miss (IsPart-refl (x ∷ y ∷ ys))
    ]

    pub sorted_by-IsPart : (xs : List A) → IsPart (sorted_by before xs) xs
    unfolding sorted_by
    sorted_by-IsPart [] = IsPart-nil []
    sorted_by-IsPart (x ∷ xs) =
        IsPart-trans (insert_by before x (sorted_by before xs)) (x ∷ sorted_by before xs) (x ∷ xs)
          (insert_by-IsPart x (sorted_by before xs))
          (IsPart-cons x (sorted_by before xs) xs (sorted_by-IsPart xs))

  -- Different keys are as many as the elements.
  pub count_distinct-unique :
      (xs : List A) → unique key xs ≡ true → count_distinct (map key xs) ≡ length xs
  count_distinct-unique [] h = refl
  count_distinct-unique (x ∷ xs) h =
      ground (arith, contains-map (key x) xs, count_distinct-unique xs)
    where
      contains-map : (k : ℕ) (xs : List A) → contains (map key xs) k ≡ has_key key k xs
      contains-map k [] = refl
      contains-map k (x ∷ xs) = ground (arith, contains-map k xs)

module _ {A B : Type 0} (f : A → B) where
  pub any-map : (test : B → Bool) (xs : List A) → any test (map f xs) ≡ any (λ x. test (f x)) xs
  any-map test [] = refl
  any-map test (x ∷ xs) = ap (λ b. test (f x) || b) (any-map test xs)

  pub unique-of_map :
      (key : B → ℕ) (xs : List A) → unique key (map f xs) ≡ unique (λ x. key (f x)) xs
  unique-of_map key [] = refl
  unique-of_map key (x ∷ xs) =
      ground (arith, any-map (λ r. key r == key (f x)) xs, unique-of_map key xs)

  pub length-map : (xs : List A) → length (map f xs) ≡ length xs
  length-map [] = refl
  length-map (x ∷ xs) = omega (arith, length-map xs)

  pub map-IsPart :
      (key : B → ℕ) (ys xs : List A)
      → IsPart (λ x. key (f x)) ys xs
      → IsPart key (map f ys) (map f xs)
  map-IsPart key ys xs p = record {
    members = λ test h. any-map test ys ∙ p.members (λ x. test (f x)) (sym (any-map test xs) ∙ h);
    distinct = λ h. unique-of_map key ys ∙ p.distinct (sym (unique-of_map key xs) ∙ h);
    shorter = omega (arith, p.shorter, length-map ys, length-map xs);
  }
