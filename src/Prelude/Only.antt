-- ===== src/Prelude/Only.antt =====
-- A row that is the only one with its key.
use Prim.Native.Nat.{ℕ}
use mathlib.Core.Path.{◌≡◌, refl, sym, ap, subst, ◌∙◌}
use mathlib.Core.Logic.{inl, inr}
use mathlib.Core.Bool.{Bool, true, false, ◌||◌}
use mathlib.Core.Option.{some}
use mathlib.Core.List.{List, [], ◌∷◌, ◌++◌, map}
use native.Mathlib.Omega.{arith}
use connextion_z_luna.Prelude.Tests.{◌==◌, Bool-cases}
use connextion_z_luna.Prelude.Lists.{any, find, All}
use connextion_z_luna.Prelude.Rows.{unique}

module _ {A : Type 0} (key : A → ℕ) (a : A) where
  abbrev pub IsTheOne : A → Type 0
  IsTheOne x = (key x == key a) ≡ true → x ≡ a

  pub record IsOnly (rows : List A) : Type 0 where
    pub present : any (λ x. key x == key a) rows ≡ true
    pub only : All IsTheOne rows

  none-All : (rows : List A) → any (λ x. key x == key a) rows ≡ false → All IsTheOne rows
  none-All [] h = tt
  none-All (x ∷ rows) h = (λ e. absurd (ground arith), none-All rows (ground arith))

  some_same : {x y : A} → some x ≡ some y → x ≡ y
  some_same e = cc

  clash :
      (x : A) (rows : List A)
      → any (λ y. key y == key x) rows ≡ false
      → any (λ y. key y == key a) rows ≡ true
      → (key x == key a) ≡ true
      → ⊥
  clash x [] u p e = cc
  clash x (y ∷ rows) u p e = ground (arith, clash x rows)

  pub find-IsOnly :
      (test : A → Bool) (rows : List A)
      → unique key rows ≡ true
      → find test rows ≡ some a
      → IsOnly rows
  find-IsOnly test [] u h = absurd cc
  find-IsOnly test (x ∷ rows) u h = elim (Bool-cases (test x)) [
    | inl hit ↦
        let same = some_same (rw hit at h) in
        record {
          present = subst (λ r. any (λ y. key y == key r) (x ∷ rows) ≡ true) same (ground arith);
          only = (
            λ e. same,
            none-All rows (subst (λ r. any (λ y. key y == key r) rows ≡ false) same (ground arith)),
          );
        }
    | inr miss ↦
        let later = find-IsOnly test rows (ground arith) (rw miss at h) in
        record {
          present = ground (arith, later.present);
          only = (λ e. absurd (clash x rows (ground arith) later.present e), later.only);
        }
  ]

  -- It is what any test finds that it passes, if only rows with its key do.
  pub IsOnly-find_by :
      (test : A → Bool) (rows : List A)
      → test a ≡ true
      → ((x : A) → test x ≡ true → (key x == key a) ≡ true)
      → IsOnly rows
      → find test rows ≡ some a
  IsOnly-find_by test rows t k h = found rows h.present h.only
    where
      apart : test a ≡ false → ⊥
      apart e = ground (arith, t, e)

      other :
          (x : A)
          → IsTheOne x
          → test x ≡ false
          → (b : Bool) → (key x == key a || b) ≡ true
          → b ≡ true
      other x o miss b p = elim (Bool-cases (key x == key a)) [
        | inl hit ↦ absurd (apart (subst (λ y. test y ≡ false) (o hit) miss))
        | inr away ↦ ground arith
      ]

      found :
          (rows : List A)
          → any (λ x. key x == key a) rows ≡ true
          → All IsTheOne rows
          → find test rows ≡ some a
      found [] p o = absurd cc
      found (x ∷ rows) p o = elim (Bool-cases (test x)) [
        | inl hit ↦ rw hit (ap some (o.0 (k x hit)))
        | inr miss ↦ rw miss (found rows (other x o.0 miss _ p) o.1)
      ]

  IsOnly-later :
      (x : A) (rows : List A) → (key x == key a) ≡ false → IsOnly (x ∷ rows) → IsOnly rows
  IsOnly-later x rows miss h = record { present = rw miss at h.present; only = h.only.1 }

  pub IsOnly-find : (rows : List A) → IsOnly rows → find (λ x. key x == key a) rows ≡ some a
  IsOnly-find [] h = absurd (empty h.present)
    where
      empty : false ≡ true → ⊥
      empty e = cc
  IsOnly-find (x ∷ rows) h = elim (Bool-cases (key x == key a)) [
    | inl hit ↦ rw hit (ap some (h.only.0 hit))
    | inr miss ↦ rw miss (IsOnly-find rows (IsOnly-later x rows miss h))
  ]

  present-snoc :
      (rows : List A) (r : A)
      → any (λ x. key x == key a) rows ≡ true
      → any (λ x. key x == key a) (rows ++ r ∷ []) ≡ true
  present-snoc [] r h = absurd cc
  present-snoc (x ∷ rows) r h = ground (arith, present-snoc rows r)

  only-snoc :
      (rows : List A) (r : A) → All IsTheOne rows → IsTheOne r → All IsTheOne (rows ++ r ∷ [])
  only-snoc [] r h p = (p, tt)
  only-snoc (x ∷ rows) r h p = (h.0, only-snoc rows r h.1 p)

  absent :
      (rows : List A) (r : A) → IsOnly rows → any (λ x. key x == key r) rows ≡ false → IsTheOne r
  absent rows r h unused e = absurd (clash rows h.present unused)
    where
      clash :
          (rows : List A)
          → any (λ x. key x == key a) rows ≡ true
          → any (λ x. key x == key r) rows ≡ false
          → ⊥
      clash [] p u = cc
      clash (x ∷ rows) p u = ground (arith, clash rows)

  -- A row under a key that is not used yet is another one.
  pub IsOnly-snoc :
      (rows : List A) (r : A)
      → any (λ x. key x == key r) rows ≡ false
      → IsOnly rows
      → IsOnly (rows ++ r ∷ [])
  IsOnly-snoc rows r unused h = record {
    present = present-snoc rows r h.present;
    only = only-snoc rows r h.only (absent rows r h unused);
  }

  pub IsOnly-found :
      (test : A → Bool) (rows : List A) (x : A) → IsOnly rows → find test rows ≡ some x → IsTheOne x
  IsOnly-found test rows x h = found rows h.only
    where
      found : (rows : List A) → All IsTheOne rows → find test rows ≡ some x → IsTheOne x
      found [] o e = absurd cc
      found (y ∷ rows) o e = elim (Bool-cases (test y)) [
        | inl hit ↦ subst IsTheOne (some_same (rw hit at e)) o.0
        | inr miss ↦ found rows o.1 (rw miss at e)
      ]

  module _ (f : A → A) (same : (x : A) → key (f x) ≡ key x) (fixed : f a ≡ a) where
    present-map :
        (rows : List A) → any (λ x. key x == key a) (map f rows) ≡ any (λ x. key x == key a) rows
    present-map [] = refl
    present-map (x ∷ rows) = rw (same x, present-map rows)

    only-map : (rows : List A) → All IsTheOne rows → All IsTheOne (map f rows)
    only-map [] h = tt
    only-map (x ∷ rows) h =
        (λ e. ap f (h.0 (subst (λ k. (k == key a) ≡ true) (same x) e)) ∙ fixed, only-map rows h.1)

    -- A change that keeps keys, and leaves this row, leaves it the only one.
    pub IsOnly-map : (rows : List A) → IsOnly rows → IsOnly (map f rows)
    IsOnly-map rows h = record {
      present = present-map rows ∙ h.present;
      only = only-map rows h.only;
    }

module _ {A : Type 0} (key : A → ℕ) (a : A) (f : A → A) (same : (x : A) → key (f x) ≡ key x) where
  changed-present :
      (rows : List A) → any (λ x. key x == key (f a)) (map f rows) ≡ any (λ x. key x == key a) rows
  changed-present [] = refl
  changed-present (x ∷ rows) = rw (same x, same a, sym (changed-present rows))

  changed-only : (rows : List A) → All (IsTheOne key a) rows → All (IsTheOne key (f a)) (map f rows)
  changed-only [] h = tt
  changed-only (x ∷ rows) h = (
    λ e. ap f (
        h.0 (
          subst (λ k. (k == key a) ≡ true) (same x)
            (subst (λ k. (key (f x) == k) ≡ true) (same a) e))),
    changed-only rows h.1,
  )

  -- A change that keeps keys takes the only row with its key to the only one.
  pub IsOnly-changed : (rows : List A) → IsOnly key a rows → IsOnly key (f a) (map f rows)
  IsOnly-changed rows h = record {
    present = changed-present rows ∙ h.present;
    only = changed-only rows h.only;
  }
