-- ===== src/Paid/Ranking.antt =====
-- backend/services/paid_ranking.py. A fraction is a difference of numbers over a positive number, which
-- no step reduces: the code only compares fractions.
pub mod Closest
pub mod Pace
pub mod Leads
pub mod Keys
pub mod Paced
pub mod Order
use connextion_z_luna.Prelude.{
  ℕ, Bool, true, false, ◌&&◌, ◌||◌, ltb, leb, ◌==◌, ◌+◌, ◌-◌, ◌*◌, Option, none, some, List, [],
  ◌∷◌, map, sorted_by, if◌then◌else◌,
}
use connextion_z_luna.Errors.{Error, Result, ok, err, ◌>>=◌, ◌>>◌, raise_if}
use connextion_z_luna.Paid.Model.{PaidCampaign}

-- `(plus - minus) / over`.
pub record Fraction : Type 0 where
  pub plus : ℕ
  pub minus : ℕ
  pub over : ℕ

-- One side of a comparison over the product of the denominators.
abbrev pub side : Fraction → Fraction → ℕ
side a b = a.plus * b.over + b.minus * a.over

unfoldable pub fraction_lt : Fraction → Fraction → Bool
fraction_lt a b = ltb (side a b) (side b a)

unfoldable pub fraction_eq : Fraction → Fraction → Bool
fraction_eq a b = side a b == side b a

unfoldable pub subtract : Fraction → Fraction → Fraction
subtract a b = record {
  plus = a.plus * b.over + b.minus * a.over;
  minus = a.minus * b.over + b.plus * a.over;
  over = a.over * b.over;
}

unfoldable pub negate : Fraction → Fraction
negate a = record { plus = a.minus; minus = a.plus; over = a.over }

abbrev pub whole : ℕ → Fraction
whole n = record { plus = n; minus = 0; over = 1 }

-- `Fraction(n, d)`.
unfoldable pub fraction : ℕ → ℕ → Result Fraction
fraction n d =
    if d == 0 then err Error.zero_division_error else ok (record { plus = n; minus = 0; over = d })

-- `min(Fraction(1), f)`.
abbrev pub at_most_one : Fraction → Fraction
at_most_one f = if fraction_lt f (whole 1) then f else whole 1

-- The progress towards one limit, if there is one.
unfoldable pub progress_to : ℕ → Option ℕ → Result (List Fraction)
unfolding fraction
progress_to delivered none = ok []
progress_to delivered (some cap) = fraction delivered cap >>= (λ f. ok (f ∷ []))

abbrev pub larger : Fraction → Fraction → Fraction
larger a b = if fraction_lt a b then b else a

abbrev pub both_progresses : List Fraction → List Fraction → List Fraction
both_progresses [] rest = rest
both_progresses (f ∷ fs) rest = f ∷ both_progresses fs rest

-- `max(progress, default=Fraction(0))`.
abbrev pub greatest : List Fraction → Fraction
greatest [] = whole 0
greatest (f ∷ []) = f
greatest (f ∷ g ∷ fs) = larger f (greatest (g ∷ fs))

abbrev pub deficit_of : Fraction → List Fraction → Fraction
deficit_of elapsed [] = whole 0
deficit_of elapsed (f ∷ fs) = subtract elapsed (greatest (f ∷ fs))

-- The tuple that orders a campaign.
pub record Key : Type 0 where
  pub pace : Fraction
  pub spare : Fraction
  pub impressions : ℕ
  pub id : ℕ

abbrev pub key_of : PaidCampaign → Fraction → List Fraction → Key
key_of c elapsed progress = record {
  pace = negate (deficit_of (at_most_one elapsed) progress);
  spare = negate (subtract (whole 1) (greatest progress));
  impressions = c.impressions_delivered;
  id = c.id;
}

-- An instant before the start counts as the start.
unfoldable pub key : ℕ → PaidCampaign → Result Key
unfolding fraction progress_to subtract negate fraction_lt
key moment c = do
  raise_if (leb c.end_at c.start_at) (Error.value_error "Campaign end must be after start")
  elapsed ← fraction (moment - c.start_at) (c.end_at - c.start_at)
  impressions ← progress_to c.impressions_delivered c.max_impressions
  reach ← progress_to c.reach_delivered c.max_reach
  ok (key_of c elapsed (both_progresses impressions reach))

-- The order of tuples.
unfoldable pub key_lt : Key → Key → Bool
unfolding fraction_lt fraction_eq
key_lt a b =
    if fraction_eq a.pace b.pace
    then if fraction_eq a.spare b.spare
      then ltb a.impressions b.impressions || (a.impressions == b.impressions && ltb a.id b.id)
      else fraction_lt a.spare b.spare
    else fraction_lt a.pace b.pace

-- Every campaign with its key.
unfoldable pub keyed : ℕ → List PaidCampaign → Result (List (Key × PaidCampaign))
unfolding key
keyed moment [] = ok []
keyed moment (c ∷ rest) = do k ← key moment c; others ← keyed moment rest; ok ((k, c) ∷ others)

-- `rank_eligible`, at a time in UTC.
unfoldable pub rank_eligible : ℕ → List PaidCampaign → Result (List PaidCampaign)
unfolding keyed key_lt sorted_by
rank_eligible moment campaigns = do
  pairs ← keyed moment campaigns
  ok (map (λ p. p.1) (sorted_by (λ a b. key_lt a.0 b.0) pairs))
