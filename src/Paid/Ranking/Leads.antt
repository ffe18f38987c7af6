-- ===== src/Paid/Ranking/Leads.antt =====
-- A campaign that leads another one has the smaller key.
use native.Mathlib.Nat.{mul-lt-mul_of_pos_right}
use connextion_z_luna.Prelude.{
  ℕ, Bool, true, false, ◌≡◌, refl, sym, subst, ap, not, ◌&&◌, ◌||◌, ltb, leb, ◌==◌, ◌-◌, ◌*◌, ◌<◌,
  ◌≤◌, List, [], ◌∷◌, map, any, all, All, arith, Bool-cases, ◌⊎◌, inl, inr, if◌then◌else◌,
}
use connextion_z_luna.Paid.Model.{PaidCampaign}
use connextion_z_luna.Paid.Rules.{==_sound, &&_left, &&_right, not-eq-true}
use connextion_z_luna.Paid.Ranking.{Key, key_lt, negate, subtract, whole, greatest, deficit_of}
use connextion_z_luna.Paid.Ranking.Closest.{
  as_fraction, Closest, closest, past, strictly_past, ratio_lt_le,
}
use connextion_z_luna.Paid.Ranking.Pace.{
  share, is_late, is_ahead, is_closer, same_window, leads_by, free_key, limited_key, free-free,
  free-limited, limited-free, late-first, ahead-last, closer-last,
}

-- The key of a campaign with these limits.
abbrev pub key_by : ℕ → PaidCampaign → List (ℕ × ℕ) → Key
key_by moment c ls = record {
  pace = negate (deficit_of (as_fraction (share moment c)) (map as_fraction ls));
  spare = negate (subtract (whole 1) (greatest (map as_fraction ls)));
  impressions = c.impressions_delivered;
  id = c.id;
}

key_by-Closest :
    (moment : ℕ) (c : PaidCampaign) (l : ℕ × ℕ) (ls : List (ℕ × ℕ)) (k : Closest (l ∷ ls))
    → limited_key c (share moment c) (k.g, k.h) ≡ key_by moment c (l ∷ ls)
key_by-Closest moment c l ls k =
    ap
      (λ f. record {
        pace = negate (subtract (as_fraction (share moment c)) f);
        spare = negate (subtract (whole 1) f);
        impressions = c.impressions_delivered;
        id = c.id;
      })
      (sym k.is_greatest)

not_late :
    (t w : ℕ) (ls : List (ℕ × ℕ))
    → is_late (t, w) ls ≡ false
    → any (λ l. leb (t * l.1) (l.0 * w)) ls ≡ true
not_late t w [] h = absurd cc
not_late t w (l ∷ ls) h = one (l.0 * w) (t * l.1) _ _ h (not_late t w ls)
  where
    one :
        (x y : ℕ) (b c : Bool)
        → (ltb x y && b) ≡ false
        → (b ≡ false → c ≡ true)
        → (leb y x || c) ≡ true
    one x y b c h k = ground (arith, k)

not_ahead :
    (t w : ℕ) (ls : List (ℕ × ℕ))
    → is_ahead (t, w) ls ≡ false
    → all (λ l. leb (l.0 * w) (t * l.1)) ls ≡ true
not_ahead t w [] h = refl
not_ahead t w (l ∷ ls) h = one (t * l.1) (l.0 * w) _ _ h (not_ahead t w ls)
  where
    one :
        (x y : ℕ) (b c : Bool)
        → (ltb x y || b) ≡ false
        → (b ≡ false → c ≡ true)
        → (leb y x && c) ≡ true
    one x y b c h k = ground (arith, k)

started :
    (ls : List (ℕ × ℕ))
    → any (λ l. ltb 0 l.0) ls ≡ true
    → any (λ l. ltb (0 * l.1) (l.0 * 1)) ls ≡ true
started [] h = h
started (l ∷ ls) h = ground (arith, started ls)

ltb_sound : (x y : ℕ) → ltb x y ≡ true → x < y
ltb_sound x y h = ground arith

leb_sound : (x y : ℕ) → leb x y ≡ true → x ≤ y
leb_sound x y h = ground arith

pub positive-product : (a b : ℕ) → 0 < a → 0 < b → 0 < a * b
positive-product a b p q = omega (arith, mul-lt-mul_of_pos_right p q)

module _ (l : ℕ × ℕ) (ls : List (ℕ × ℕ)) (k : Closest (l ∷ ls)) where
  late-closest : (t w : ℕ) → is_late (t, w) (l ∷ ls) ≡ true → k.g * w < t * k.h
  late-closest t w h = ltb_sound _ _ (k.member (λ m. ltb (m.0 * w) (t * m.1)) h)

  not_ahead-closest : (t w : ℕ) → is_ahead (t, w) (l ∷ ls) ≡ false → k.g * w ≤ t * k.h
  not_ahead-closest t w h =
      leb_sound _ _ (k.member (λ m. leb (m.0 * w) (t * m.1)) (not_ahead t w (l ∷ ls) h))

  closer-closest :
      (g h : ℕ) (ks : List (ℕ × ℕ))
      → 0 < h
      → All (λ m. m.0 * h ≤ g * m.1) ks
      → is_closer (l ∷ ls) ks ≡ true
      → k.g * h < g * k.h
  closer-closest g h [] p bs c = absurd cc
  closer-closest g h (m ∷ ks) p (b, bs) c =
      elim (Bool-cases (all (λ n. ltb (n.0 * m.1) (m.0 * n.1)) (l ∷ ls))) [
        | inl here ↦
            ratio_lt_le k.g k.h m.0 m.1 g h p
              (ltb_sound _ _ (k.member (λ n. ltb (n.0 * m.1) (m.0 * n.1)) here)) b
        | inr later ↦ closer-closest g h ks p bs (rw later at c)
      ]

-- Two campaigns in one window are at one place of it.
same_share :
    (moment : ℕ) (a b : PaidCampaign) → same_window a b ≡ true → share moment b ≡ share moment a
same_share moment a b h =
    subst (λ start. at start b.end_at ≡ share moment a)
      (==_sound a.start_at b.start_at (&&_left _ (a.end_at == b.end_at) h))
      (subst (λ end. at a.start_at end ≡ share moment a)
        (==_sound a.end_at b.end_at (&&_right (a.start_at == b.start_at) _ h)) refl)
  where
    at : ℕ → ℕ → ℕ × ℕ
    at start end =
        if ltb (moment - start) (end - start) then (moment - start, end - start) else (1, 1)

-- The three reasons for which one of two limited campaigns leads the other one.
three_reasons :
    (a b c d e f : Bool)
    → ((a && not b) || (not c && d) || (e && f)) ≡ true
    → ((a ≡ true) × (b ≡ false)) ⊎ ((c ≡ false) × (d ≡ true)) ⊎ ((e ≡ true) × (f ≡ true))
three_reasons true false c d e f h = inl (refl, refl)
three_reasons true true false true e f h = inr (inl (refl, refl))
three_reasons true true false false e f h = inr (inr (&&_left e f h, &&_right e f h))
three_reasons true true true d e f h = inr (inr (&&_left e f h, &&_right e f h))
three_reasons false b false true e f h = inr (inl (refl, refl))
three_reasons false b false false e f h = inr (inr (&&_left e f h, &&_right e f h))
three_reasons false b true d e f h = inr (inr (&&_left e f h, &&_right e f h))

limited-limited :
    (moment : ℕ) (a b : PaidCampaign) (l k : ℕ × ℕ) (ls ks : List (ℕ × ℕ)) (p : Closest (l ∷ ls))
    (q : Closest (k ∷ ks))
    → All (λ m. 0 < m.1) (k ∷ ks)
    → 0 < (share moment a).1
    → 0 < (share moment b).1
    → leads_by moment a b (l ∷ ls) (k ∷ ks) ≡ true
    → key_lt (limited_key a (share moment a) (p.g, p.h)) (limited_key b (share moment b) (q.g, q.h))
      ≡ true
limited-limited moment a b l k ls ks p q pos o o' h =
    let t = (share moment a).0 in
    let w = (share moment a).1 in
    let t' = (share moment b).0 in
    let w' = (share moment b).1 in
    elim (three_reasons (is_late (share moment a) (l ∷ ls)) (is_late (share moment b) (k ∷ ks))
      (is_ahead (share moment a) (l ∷ ls)) (is_ahead (share moment b) (k ∷ ks)) (same_window a b)
      (is_closer (l ∷ ls) (k ∷ ks)) h) [
        | inl (late, early) ↦
            late-first a b t w p.g p.h t' w' q.g q.h (positive-product w' q.h o' q.positive)
              (late-closest l ls p t w late)
              (past t' w' q.g q.h (k ∷ ks) q.positive pos q.bound (not_late t' w' (k ∷ ks) early))
        | inr (inl (behind, ahead)) ↦
            ahead-last a b t w p.g p.h t' w' q.g q.h (positive-product w p.h o p.positive)
              (not_ahead-closest l ls p t w behind)
              (strictly_past t' w' q.g q.h (k ∷ ks) q.positive pos q.bound ahead)
        | inr (inr (same, closer)) ↦
            subst
              (λ s.
                key_lt (limited_key a (share moment a) (p.g, p.h)) (limited_key b s (q.g, q.h))
                ≡ true)
              (sym (same_share moment a b same))
              (closer-last a b t w p.g p.h q.g q.h o
                (closer-closest l ls p q.g q.h (k ∷ ks) q.positive q.bound closer))
      ]

pub leads_by-key_lt :
    (moment : ℕ) (a b : PaidCampaign) (ls ks : List (ℕ × ℕ))
    → All (λ m. 0 < m.1) ls
    → All (λ m. 0 < m.1) ks
    → 0 < (share moment a).1
    → 0 < (share moment b).1
    → leads_by moment a b ls ks ≡ true
    → key_lt (key_by moment a ls) (key_by moment b ks) ≡ true
leads_by-key_lt moment a b [] [] ps qs o o' h = free-free moment a b h
leads_by-key_lt moment a b [] (k ∷ ks) ps qs o o' h =
    let q = closest k ks qs in
    let (t, w) = share moment b in
    subst (λ x. key_lt (free_key a) x ≡ true) (key_by-Closest moment b k ks q)
      (free-limited a b t w q.g q.h
        (past t w q.g q.h (k ∷ ks) q.positive qs q.bound
          (not_late t w (k ∷ ks) (not-eq-true _ (&&_left _ (any (λ l. ltb 0 l.0) (k ∷ ks)) h))))
        (some_delivered q.g q.h (
          strictly_past 0 1 q.g q.h (k ∷ ks) q.positive qs q.bound
            (started (k ∷ ks) (&&_right (not (is_late (t, w) (k ∷ ks))) _ h)))))
  where
    some_delivered : (g h : ℕ) → 0 * h < g * 1 → 0 < g
    some_delivered g h p = omega (arith, p)
leads_by-key_lt moment a b (l ∷ ls) [] ps qs o o' h =
    let p = closest l ls ps in
    let (t, w) = share moment a in
    subst (λ x. key_lt x (free_key b) ≡ true) (key_by-Closest moment a l ls p)
      (limited-free a b t w p.g p.h (late-closest l ls p t w h))
leads_by-key_lt moment a b (l ∷ ls) (k ∷ ks) ps qs o o' h =
    let p = closest l ls ps in
    let q = closest k ks qs in
    subst (λ x. key_lt x (key_by moment b (k ∷ ks)) ≡ true) (key_by-Closest moment a l ls p)
      (subst (λ y. key_lt (limited_key a (share moment a) (p.g, p.h)) y ≡ true)
        (key_by-Closest moment b k ks q) (limited-limited moment a b l k ls ks p q qs o o' h))
