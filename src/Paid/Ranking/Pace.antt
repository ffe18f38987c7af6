-- ===== src/Paid/Ranking/Pace.antt =====
-- Which campaign goes first, told from the rows, without fractions.
use native.Mathlib.Nat.{mul-le-mul_right, mul-lt-mul_of_pos_right}
use connextion_z_luna.Prelude.{
  ℕ, Bool, true, ◌≡◌, not, ◌&&◌, ◌||◌, ltb, ◌==◌, ◌-◌, ◌*◌, ◌<◌, ◌≤◌, Option, none, some, List, [],
  ◌∷◌, ◌++◌, any, all, arith, if◌then◌else◌,
}
use connextion_z_luna.Paid.Model.{PaidCampaign}
use connextion_z_luna.Paid.Ranking.{
  Key, key_lt, side, fraction_lt, fraction_eq, subtract, negate, whole,
}
use connextion_z_luna.Paid.Ranking.Closest.{as_fraction}

-- What is delivered, with the most that may be, for each limit that there is.
abbrev pub limit_of : ℕ → Option ℕ → List (ℕ × ℕ)
limit_of delivered none = []
limit_of delivered (some most) = (delivered, most) ∷ []

abbrev pub limits : PaidCampaign → List (ℕ × ℕ)
limits c =
    limit_of c.impressions_delivered c.max_impressions ++ limit_of c.reach_delivered c.max_reach

-- The part of the window that has elapsed, of the whole of it.
abbrev pub share : ℕ → PaidCampaign → ℕ × ℕ
share moment c =
    if ltb (moment - c.start_at) (c.end_at - c.start_at)
    then (moment - c.start_at, c.end_at - c.start_at)
    else (1, 1)

-- Less has been delivered towards every limit than has elapsed of the window.
abbrev pub is_late : ℕ × ℕ → List (ℕ × ℕ) → Bool
is_late elapsed = all (λ l. ltb (l.0 * elapsed.1) (elapsed.0 * l.1))

-- More has been delivered towards some limit than has elapsed of the window.
abbrev pub is_ahead : ℕ × ℕ → List (ℕ × ℕ) → Bool
is_ahead elapsed = any (λ l. ltb (elapsed.0 * l.1) (l.0 * elapsed.1))

-- Some limit is closer than every one of the others.
abbrev pub is_closer : List (ℕ × ℕ) → List (ℕ × ℕ) → Bool
is_closer others = any (λ k. all (λ l. ltb (l.0 * k.1) (k.0 * l.1)) others)

abbrev pub same_window : PaidCampaign → PaidCampaign → Bool
same_window a b = a.start_at == b.start_at && a.end_at == b.end_at

abbrev pub leads_by : ℕ → PaidCampaign → PaidCampaign → List (ℕ × ℕ) → List (ℕ × ℕ) → Bool
leads_by moment a b [] [] =
    ltb a.impressions_delivered b.impressions_delivered
    || (a.impressions_delivered == b.impressions_delivered && ltb a.id b.id)
leads_by moment a b [] (k ∷ ks) =
    not (is_late (share moment b) (k ∷ ks)) && any (λ l. ltb 0 l.0) (k ∷ ks)
leads_by moment a b (l ∷ ls) [] = is_late (share moment a) (l ∷ ls)
leads_by moment a b (l ∷ ls) (k ∷ ks) =
    (is_late (share moment a) (l ∷ ls) && not (is_late (share moment b) (k ∷ ks)))
    || (not (is_ahead (share moment a) (l ∷ ls)) && is_ahead (share moment b) (k ∷ ks))
    || (same_window a b && is_closer (l ∷ ls) (k ∷ ks))

-- The campaign `a` goes before `b`. A campaign without limits goes before one with limits that is not
-- late and has delivered something, and after one that is late; of two without limits, the one with
-- fewer impressions goes first. Of two with limits, one that is late goes before one that is not,
-- one that is ahead goes after one that is not, and in one window the one whose closest limit is
-- further away goes first.
abbrev pub leads : ℕ → PaidCampaign → PaidCampaign → Bool
leads moment a b = leads_by moment a b (limits a) (limits b)

-- The keys, by the closest limit.
abbrev pub free_key : PaidCampaign → Key
free_key c = record {
  pace = negate (whole 0);
  spare = negate (subtract (whole 1) (whole 0));
  impressions = c.impressions_delivered;
  id = c.id;
}

abbrev pub limited_key : PaidCampaign → ℕ × ℕ → ℕ × ℕ → Key
limited_key c elapsed closest = record {
  pace = negate (subtract (as_fraction elapsed) (as_fraction closest));
  spare = negate (subtract (whole 1) (as_fraction closest));
  impressions = c.impressions_delivered;
  id = c.id;
}

key_lt-pace : (a b : Key) → side a.pace b.pace < side b.pace a.pace → key_lt a b ≡ true
unfolding key_lt fraction_lt fraction_eq
key_lt-pace a b h = first _ (side a.pace b.pace) (side b.pace a.pace) h
  where
    first : (rest : Bool) (p q : ℕ) → p < q → (if p == q then rest else ltb p q) ≡ true
    first rest p q h = ground arith

key_lt-spare :
    (a b : Key)
    → side a.pace b.pace ≤ side b.pace a.pace
    → side a.spare b.spare < side b.spare a.spare
    → key_lt a b ≡ true
unfolding key_lt fraction_lt fraction_eq
key_lt-spare a b h k =
    second _ (side a.pace b.pace) (side b.pace a.pace) (side a.spare b.spare) (side b.spare a.spare)
      h k
  where
    second :
        (rest : Bool) (p q r s : ℕ)
        → p ≤ q
        → r < s
        → (if p == q then (if r == s then rest else ltb r s) else ltb p q) ≡ true
    second rest p q r s h k = ground arith

pub free-free :
    (moment : ℕ) (a b : PaidCampaign)
    → leads_by moment a b [] [] ≡ true
    → key_lt (free_key a) (free_key b) ≡ true
unfolding key_lt fraction_lt fraction_eq negate subtract
free-free moment a b h = h

pub free-limited :
    (a b : PaidCampaign) (e o g h : ℕ)
    → e * h ≤ g * o
    → 0 < g
    → key_lt (free_key a) (limited_key b (e, o) (g, h)) ≡ true
unfolding negate subtract
free-limited a b e o g h late started =
    key_lt-spare (free_key a) (limited_key b (e, o) (g, h)) (omega (arith, late)) (omega arith)

pub limited-free :
    (a b : PaidCampaign) (e o g h : ℕ)
    → g * o < e * h
    → key_lt (limited_key a (e, o) (g, h)) (free_key b) ≡ true
unfolding negate subtract
limited-free a b e o g h late =
    key_lt-pace (limited_key a (e, o) (g, h)) (free_key b) (omega (arith, late))

-- One that is late, and one that is not.
pub late-first :
    (a b : PaidCampaign) (e o g h e' o' g' h' : ℕ)
    → 0 < o' * h'
    → g * o < e * h
    → e' * h' ≤ g' * o'
    → key_lt (limited_key a (e, o) (g, h)) (limited_key b (e', o') (g', h')) ≡ true
unfolding negate subtract
late-first a b e o g h e' o' g' h' p late early =
    key_lt-pace (limited_key a (e, o) (g, h)) (limited_key b (e', o') (g', h'))
      (omega (arith, mul-lt-mul_of_pos_right late p, mul-le-mul_right (o * h) early))

pub ahead-last :
    (a b : PaidCampaign) (e o g h e' o' g' h' : ℕ)
    → 0 < o * h
    → g * o ≤ e * h
    → e' * h' < g' * o'
    → key_lt (limited_key a (e, o) (g, h)) (limited_key b (e', o') (g', h')) ≡ true
unfolding negate subtract
ahead-last a b e o g h e' o' g' h' p early ahead =
    key_lt-pace (limited_key a (e, o) (g, h)) (limited_key b (e', o') (g', h'))
      (omega (arith, mul-lt-mul_of_pos_right ahead p, mul-le-mul_right (o' * h') early))

pub closer-last :
    (a b : PaidCampaign) (e o g h g' h' : ℕ)
    → 0 < o
    → g * h' < g' * h
    → key_lt (limited_key a (e, o) (g, h)) (limited_key b (e, o) (g', h')) ≡ true
unfolding negate subtract
closer-last a b e o g h g' h' p closer =
    key_lt-pace (limited_key a (e, o) (g, h)) (limited_key b (e, o) (g', h'))
      (omega (arith, mul-lt-mul_of_pos_right (mul-lt-mul_of_pos_right closer p) p))
