-- ===== src/Paid/Ranking/Closest.antt =====
-- The closest of the limits of a campaign: the one that most of has been delivered.
use native.Mathlib.Nat.{
  mul-le-mul_right, mul-lt-mul_of_pos_right, le_of_mul-le-mul_right, lt_of_mul-lt-mul_right,
}
use connextion_z_luna.Prelude.{
  ℕ, Bool, true, false, ◌≡◌, refl, ap, ◌∙◌, ltb, leb, ◌+◌, ◌*◌, ◌<◌, ◌≤◌, List, [], ◌∷◌, map, any,
  all, All, arith, Bool-cases, inl, inr,
}
use connextion_z_luna.Paid.Ranking.{Fraction, fraction_lt, greatest, larger}

abbrev pub as_fraction : ℕ × ℕ → Fraction
as_fraction (n, m) = record { plus = n; minus = 0; over = m }

-- From `a / b ≤ c / d` and `c / d ≤ e / f` to `a / b ≤ e / f`.
pub ratio_trans : (a b c d e f : ℕ) → 0 < d → a * d ≤ c * b → c * f ≤ e * d → a * f ≤ e * b
ratio_trans a b c d e f p h k =
    le_of_mul-le-mul_right {k = d} (omega (arith, mul-le-mul_right f h, mul-le-mul_right b k)) p

-- From `a / b ≤ c / d` and `c / d < e / f` to `a / b < e / f`.
pub ratio_lt : (a b c d e f : ℕ) → 0 < b → a * d ≤ c * b → c * f < e * d → a * f < e * b
ratio_lt a b c d e f p h k =
    lt_of_mul-lt-mul_right d (omega (arith, mul-le-mul_right f h, mul-lt-mul_of_pos_right k p))

-- From `a / b < c / d` and `c / d ≤ e / f` to `a / b < e / f`.
pub ratio_lt_le : (a b c d e f : ℕ) → 0 < f → a * d < c * b → c * f ≤ e * d → a * f < e * b
ratio_lt_le a b c d e f p h k =
    lt_of_mul-lt-mul_right d (omega (arith, mul-lt-mul_of_pos_right h p, mul-le-mul_right b k))

-- The fraction `g / h`, which is one of the limits and no less than any of them.
pub record Closest (limits : List (ℕ × ℕ)) : Type 0 where
  pub g : ℕ
  pub h : ℕ
  pub is_greatest : greatest (map as_fraction limits) ≡ as_fraction (g, h)
  pub positive : 0 < h
  pub member : (test : ℕ × ℕ → Bool) → all test limits ≡ true → test (g, h) ≡ true
  pub bound : All (λ l. l.0 * h ≤ g * l.1) limits

bounds_trans :
    (limits : List (ℕ × ℕ)) (g h n m : ℕ)
    → 0 < h
    → g * m ≤ n * h
    → All (λ l. l.0 * h ≤ g * l.1) limits
    → All (λ l. l.0 * m ≤ n * l.1) limits
bounds_trans [] g h n m p k bs = tt
bounds_trans (l ∷ limits) g h n m p k (b, bs) =
    (ratio_trans l.0 l.1 g h n m p b k, bounds_trans limits g h n m p k bs)

either_greater :
    (n m g h : ℕ)
    → (fraction_lt (as_fraction (n, m)) (as_fraction (g, h)) ≡ true → n * h < g * m)
      × (fraction_lt (as_fraction (n, m)) (as_fraction (g, h)) ≡ false → g * m ≤ n * h)
unfolding fraction_lt
either_greater n m g h = (λ t. below _ _ t, λ f. above _ _ f)
  where
    below : (x y : ℕ) → ltb (x + 0 * m) (y + 0 * h) ≡ true → x < y
    below x y t = ground arith

    above : (x y : ℕ) → ltb (x + 0 * m) (y + 0 * h) ≡ false → y ≤ x
    above x y t = ground arith

pub closest :
    (l : ℕ × ℕ) (limits : List (ℕ × ℕ)) → All (λ k. 0 < k.1) (l ∷ limits) → Closest (l ∷ limits)
closest (n, m) [] (p, ps) = record {
  g = n;
  h = m;
  is_greatest = refl;
  positive = p;
  member = λ test k. ground arith;
  bound = (omega arith, tt);
}
closest (n, m) (l ∷ limits) (p, ps) =
    let c = closest l limits ps in
    let (below, above) = either_greater n m c.g c.h in
    elim (Bool-cases (fraction_lt (as_fraction (n, m)) (as_fraction (c.g, c.h)))) [
      | inl less ↦ record {
        g = c.g;
        h = c.h;
        is_greatest = ap (larger (as_fraction (n, m))) c.is_greatest ∙ rw less;
        positive = c.positive;
        member = λ test k. c.member test (ground arith);
        bound = (omega (arith, below less), c.bound);
      }
      | inr more ↦ record {
        g = n;
        h = m;
        is_greatest = ap (larger (as_fraction (n, m))) c.is_greatest ∙ rw more;
        positive = p;
        member = λ test k. ground arith;
        bound =
            (omega arith, bounds_trans (l ∷ limits) c.g c.h n m c.positive (above more) c.bound);
      }
    ]

-- A limit that is past a ratio takes the closest one past it.
pub past :
    (t w g h : ℕ) (limits : List (ℕ × ℕ))
    → 0 < h
    → All (λ l. 0 < l.1) limits
    → All (λ l. l.0 * h ≤ g * l.1) limits
    → any (λ l. leb (t * l.1) (l.0 * w)) limits ≡ true
    → t * h ≤ g * w
past t w g h [] p ps bs k = absurd cc
past t w g h (l ∷ limits) p (q, ps) (b, bs) k = elim (Bool-cases (leb (t * l.1) (l.0 * w))) [
  | inl here ↦ ratio_trans t w l.0 l.1 g h q (le_of _ _ here) b
  | inr later ↦ past t w g h limits p ps bs (ground arith)
]
  where
    le_of : (x y : ℕ) → leb x y ≡ true → x ≤ y
    le_of x y h = ground arith

pub strictly_past :
    (t w g h : ℕ) (limits : List (ℕ × ℕ))
    → 0 < h
    → All (λ l. 0 < l.1) limits
    → All (λ l. l.0 * h ≤ g * l.1) limits
    → any (λ l. ltb (t * l.1) (l.0 * w)) limits ≡ true
    → t * h < g * w
strictly_past t w g h [] p ps bs k = absurd cc
strictly_past t w g h (l ∷ limits) p (q, ps) (b, bs) k =
    elim (Bool-cases (ltb (t * l.1) (l.0 * w))) [
      | inl here ↦ ratio_lt_le t w l.0 l.1 g h p (lt_of _ _ here) b
      | inr later ↦ strictly_past t w g h limits p ps bs (ground arith)
    ]
  where
    lt_of : (x y : ℕ) → ltb x y ≡ true → x < y
    lt_of x y h = ground arith
