-- ===== src/Prelude/Sorted.antt =====
-- Laws of the insertion behind `sorted`, for an order in which nothing is before what is before it.
use mathlib.Core.List.{Perm}
use mathlib.Core.List.Perm
use connextion_z_luna.Prelude.{
  Bool, true, false, ◌≡◌, Bool-cases, inl, inr, List, [], ◌∷◌, map, All, insert_by, sorted_by,
}

module _ {A : Type 0} (before : A → A → Bool) where
  abbrev StartsAfter : A → List A → Type 0
  StartsAfter x [] = Unit
  StartsAfter x (y ∷ ys) = before y x ≡ false

  -- No element is before the one that stands in front of it.
  abbrev pub IsOrdered : List A → Type 0
  IsOrdered [] = Unit
  IsOrdered (x ∷ xs) = StartsAfter x xs × IsOrdered xs

  -- No element is before any of those that stand in front of it.
  abbrev pub IsSorted : List A → Type 0
  IsSorted [] = Unit
  IsSorted (x ∷ xs) = All (λ y. before y x ≡ false) xs × IsSorted xs

  module _ {P : A → Type 0}
      (trans : (a b c : A)
        → P a
        → P b
        → P c
        → before b a ≡ false
        → before c b ≡ false
        → before c a ≡ false) where
    All-after :
        (x y : A) (ys : List A)
        → P x
        → P y
        → All P ys
        → before y x ≡ false
        → All (λ z. before z y ≡ false) ys
        → All (λ z. before z x ≡ false) ys
    All-after x y [] px py ps h hs = tt
    All-after x y (z ∷ ys) px py (pz, ps) h (k, ks) =
        (trans x y z px py pz h k, All-after x y ys px py ps h ks)

    pub IsOrdered-IsSorted : (xs : List A) → All P xs → IsOrdered xs → IsSorted xs
    IsOrdered-IsSorted [] ps h = tt
    IsOrdered-IsSorted (x ∷ []) ps h = (tt, tt)
    IsOrdered-IsSorted (x ∷ y ∷ ys) (px, (py, ps)) (h, hs) =
        let (k, ks) = IsOrdered-IsSorted (y ∷ ys) (py, ps) hs in
        ((h, All-after x y ys px py ps h k), (k, ks))

  insert_by-All :
      (P : A → Type 0) (x : A) (xs : List A) → P x → All P xs → All P (insert_by before x xs)
  unfolding insert_by
  insert_by-All P x [] p ps = (p, tt)
  insert_by-All P x (y ∷ ys) p (q, qs) = elim (Bool-cases (before y x)) [
    | inl hit ↦ rw hit (q, insert_by-All P x ys p qs)
    | inr miss ↦ rw miss (p, (q, qs))
  ]

  pub sorted_by-All : (P : A → Type 0) (xs : List A) → All P xs → All P (sorted_by before xs)
  unfolding sorted_by
  sorted_by-All P [] ps = tt
  sorted_by-All P (x ∷ xs) (p, ps) =
      insert_by-All P x (sorted_by before xs) p (sorted_by-All P xs ps)

  insert_by-perm :
      {B : Type 0} (f : A → B) (x : A) (xs : List A)
      → Perm (map f (insert_by before x xs)) (f x ∷ map f xs)
  unfolding insert_by
  insert_by-perm f x [] = Perm.rfl
  insert_by-perm f x (y ∷ ys) = elim (Bool-cases (before y x)) [
    | inl hit ↦
        rw hit
          (Perm.trans (Perm.cons (f y) (insert_by-perm f x ys)) (Perm.swap (f x) (f y) (map f ys)))
    | inr miss ↦ rw miss Perm.rfl
  ]

  pub sorted_by-perm :
      {B : Type 0} (f : A → B) (xs : List A) → Perm (map f (sorted_by before xs)) (map f xs)
  unfolding sorted_by
  sorted_by-perm f [] = Perm.rfl
  sorted_by-perm f (x ∷ xs) =
      Perm.trans (insert_by-perm f x (sorted_by before xs)) (Perm.cons (f x) (sorted_by-perm f xs))

  module _ (asym : (a b : A) → before a b ≡ true → before b a ≡ false) where
    starts-insert_by :
        (z x : A) (xs : List A)
        → before x z ≡ false
        → StartsAfter z xs
        → StartsAfter z (insert_by before x xs)
    unfolding insert_by
    starts-insert_by z x [] h k = h
    starts-insert_by z x (y ∷ ys) h k = elim (Bool-cases (before y x)) [
      | inl hit ↦ rw hit k
      | inr miss ↦ rw miss h
    ]

    insert_by-IsOrdered : (x : A) (xs : List A) → IsOrdered xs → IsOrdered (insert_by before x xs)
    unfolding insert_by
    insert_by-IsOrdered x [] h = (tt, tt)
    insert_by-IsOrdered x (y ∷ ys) (h, hs) = elim (Bool-cases (before y x)) [
      | inl hit ↦ rw hit (starts-insert_by y x ys (asym y x hit) h, insert_by-IsOrdered x ys hs)
      | inr miss ↦ rw miss (miss, (h, hs))
    ]

    pub sorted_by-IsOrdered : (xs : List A) → IsOrdered (sorted_by before xs)
    unfolding sorted_by
    sorted_by-IsOrdered [] = tt
    sorted_by-IsOrdered (x ∷ xs) =
        insert_by-IsOrdered x (sorted_by before xs) (sorted_by-IsOrdered xs)
