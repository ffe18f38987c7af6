-- ===== src/Paid/Ranking/Keys.antt =====
-- The tuples that the ranking sorts by are in a weak order where no denominator is zero.
use native.Mathlib.Nat.{mul-le-mul_right, le_of_mul-le-mul_right}
use connextion_z_luna.Prelude.{
  ℕ, Bool, false, ◌≡◌, ◌&&◌, ◌||◌, ltb, ◌==◌, ◌<◌, ◌≤◌, arith, if◌then◌else◌,
}
use connextion_z_luna.Paid.Ranking.{Fraction, side, Key, fraction_lt, fraction_eq, key_lt}

IsAtMost : Fraction → Fraction → Type 0
IsAtMost f g = side f g ≤ side g f

IsAtMost-trans : (f g h : Fraction) → 0 < g.over → IsAtMost f g → IsAtMost g h → IsAtMost f h
unfolding IsAtMost
IsAtMost-trans f g h p a b =
    le_of_mul-le-mul_right {k = g.over}
      (omega (arith, mul-le-mul_right h.over a, mul-le-mul_right f.over b)) p

-- The last two places of the tuple.
abbrev tie_lt : Key → Key → Bool
tie_lt a b = ltb a.impressions b.impressions || (a.impressions == b.impressions && ltb a.id b.id)

-- The key `b` is not less than `a`.
record IsNoLess (a b : Key) : Type 0 where
  pub pace : IsAtMost a.pace b.pace
  pub spare : IsAtMost b.pace a.pace → IsAtMost a.spare b.spare
  pub tie : IsAtMost b.pace a.pace → IsAtMost b.spare a.spare → tie_lt b a ≡ false

key_lt-IsNoLess : (a b : Key) → key_lt b a ≡ false → IsNoLess a b
unfolding key_lt fraction_lt fraction_eq IsAtMost
key_lt-IsNoLess a b h =
    let (p, q, r) =
      parts (side a.pace b.pace) (side b.pace a.pace) (side a.spare b.spare) (side b.spare a.spare)
        (tie_lt b a) h in
    record { pace = p; spare = q; tie = r }
  where
    parts :
        (p q r s : ℕ) (t : Bool)
        → (if q == p then (if s == r then t else ltb s r) else ltb q p) ≡ false
        → (p ≤ q) × (q ≤ p → r ≤ s) × (q ≤ p → s ≤ r → t ≡ false)
    parts p q r s t h = (ground arith, λ k. ground arith, λ k l. ground arith)

IsNoLess-key_lt : (a b : Key) → IsNoLess a b → key_lt b a ≡ false
unfolding key_lt fraction_lt fraction_eq IsAtMost
IsNoLess-key_lt a b n =
    whole_tuple (side a.pace b.pace) (side b.pace a.pace) (side a.spare b.spare)
      (side b.spare a.spare) (tie_lt b a) n.pace n.spare n.tie
  where
    whole_tuple :
        (p q r s : ℕ) (t : Bool)
        → p ≤ q
        → (q ≤ p → r ≤ s)
        → (q ≤ p → s ≤ r → t ≡ false)
        → (if q == p then (if s == r then t else ltb s r) else ltb q p) ≡ false
    whole_tuple p q r s t h k l = ground (arith, k, l)

tie_trans : (a b c : Key) → tie_lt b a ≡ false → tie_lt c b ≡ false → tie_lt c a ≡ false
tie_trans a b c h k = numbers a.impressions b.impressions c.impressions a.id b.id c.id h k
  where
    numbers :
        (i j k l m n : ℕ)
        → (ltb j i || (j == i && ltb m l)) ≡ false
        → (ltb k j || (k == j && ltb n m)) ≡ false
        → (ltb k i || (k == i && ltb n l)) ≡ false
    numbers i j k l m n h g = ground arith

pub record HasPositive (a : Key) : Type 0 where
  pub pace : 0 < a.pace.over
  pub spare : 0 < a.spare.over

IsNoLess-trans :
    (a b c : Key)
    → HasPositive a
    → HasPositive b
    → HasPositive c
    → IsNoLess a b
    → IsNoLess b c
    → IsNoLess a c
IsNoLess-trans a b c p q r m n = record {
  pace = IsAtMost-trans a.pace b.pace c.pace q.pace m.pace n.pace;
  spare =
      λ h. IsAtMost-trans a.spare b.spare c.spare q.spare (m.spare (below h)) (n.spare (above h));
  tie = λ h k.
      tie_trans a b c
        (m.tie (below h) (IsAtMost-trans b.spare c.spare a.spare r.spare (n.spare (above h)) k))
        (n.tie (above h) (IsAtMost-trans c.spare a.spare b.spare p.spare k (m.spare (below h))));
}
  where
    below : IsAtMost c.pace a.pace → IsAtMost b.pace a.pace
    below h = IsAtMost-trans b.pace c.pace a.pace r.pace n.pace h

    above : IsAtMost c.pace a.pace → IsAtMost c.pace b.pace
    above h = IsAtMost-trans c.pace a.pace b.pace p.pace h m.pace

pub key_lt_trans :
    (a b c : Key)
    → HasPositive a
    → HasPositive b
    → HasPositive c
    → key_lt b a ≡ false
    → key_lt c b ≡ false
    → key_lt c a ≡ false
key_lt_trans a b c p q r h k =
    IsNoLess-key_lt a c (IsNoLess-trans a b c p q r (key_lt-IsNoLess a b h) (key_lt-IsNoLess b c k))
