-- ===== src/RateLimits/Windows.antt =====
-- The times of one bucket: their order, their expiry, and the room that a wait of 0 means.
use connextion_z_luna.Prelude.{
  ℕ, zero, suc, Bool, true, false, ◌≡◌, refl, ◌≤◌, ◌&&◌, ◌+◌, ◌-◌, ltb, leb, List, [], ◌∷◌, ◌++◌,
  all, length, replicate, Option, none, some, arith, subst, if◌then◌else◌,
}
use native.Mathlib.Nat.{le-div_iff_mul-le}
use connextion_z_luna.Errors.{Result, ok}
use connextion_z_luna.Exec.Returns.{ok_injective, err_is_not_ok}
use connextion_z_luna.RateLimits.{
  ActionLimit, RateLimiter, expire, nth, ceil_div, wait, wait_until, window,
}

-- The oldest time is the first.
abbrev pub ordered : List ℕ → Bool
ordered [] = true
ordered (t ∷ times) = all (leb t) times && ordered times

abbrev pub past : ℕ → List ℕ → Bool
past now times = all (λ t. leb t now) times

abbrev unexpired : ℕ → ℕ → List ℕ → Bool
unexpired w now times = all (λ t. ltb (now - t) w) times

all_implies :
    (f g : ℕ → Bool)
    → ((t : ℕ) → f t ≡ true → g t ≡ true)
    → (times : List ℕ) → all f times ≡ true
    → all g times ≡ true
all_implies f g k [] h = refl
all_implies f g k (t ∷ times) h =
    let first = k t in let rest = all_implies f g k times in ground arith

module _ (w now : ℕ) where
  pub all-expire :
      (f : ℕ → Bool) (times : List ℕ) → all f times ≡ true → all f (expire w now times) ≡ true
  unfolding expire
  all-expire f [] h = refl
  all-expire f (t ∷ times) h = let rest = all-expire f times in ground arith

  pub ordered-expire : (times : List ℕ) → ordered times ≡ true → ordered (expire w now times) ≡ true
  unfolding expire
  ordered-expire [] h = refl
  ordered-expire (t ∷ times) h = let rest = ordered-expire times in ground arith

  pub length-expire : (times : List ℕ) → leb (length (expire w now times)) (length times) ≡ true
  unfolding expire
  length-expire [] = refl
  length-expire (t ∷ times) = let rest = length-expire times in ground arith

  pub unexpired-expire :
      (times : List ℕ) → ordered times ≡ true → unexpired w now (expire w now times) ≡ true
  unfolding expire
  unexpired-expire [] h = refl
  unexpired-expire (t ∷ times) h =
      let rest = unexpired-expire times in
      let later = λ (f : ltb (now - t) w ≡ true).
        all_implies (leb t) (λ u. ltb (now - u) w) (λ u a. ground arith) times in
      ground arith

nth-all :
    (f : ℕ → Bool) (times : List ℕ) (n t : ℕ)
    → all f times ≡ true
    → nth n times ≡ some t
    → f t ≡ true
nth-all f [] n t h e = cc
nth-all f (x ∷ times) zero t h e = subst (λ u. f u ≡ true) (some_injective e) (first (ground arith))
  where
    some_injective : some x ≡ some t → x ≡ t
    some_injective e = cc

    first : f x ≡ true → f x ≡ true
    first h = h
nth-all f (x ∷ times) (suc n) t h e = nth-all f times n t (ground arith) e

-- A positive number of ticks takes at least a second.
ceil_div_pos : (a b : ℕ) → 1 ≤ a → 1 ≤ b → 1 ≤ ceil_div a b
ceil_div_pos a b ha hb = (le-div_iff_mul-le (ground arith)).1 (ground arith)

module _ (s : RateLimiter) (now : ℕ) where
  -- The oldest time that must expire has not expired, so the wait is positive.
  no_wait :
      (limit : ActionLimit) (times : List ℕ) (o : Option ℕ)
      → ((t : ℕ) → o ≡ some t → ltb (now - t) (window s limit) ≡ true)
      → leb 1 s.ticks_per_second ≡ true
      → wait_until s now limit o ≡ ok 0
      → ⊥
  no_wait limit times none fresh ticks h = err_is_not_ok h
  no_wait limit times (some t) fresh ticks h =
      let f = fresh t refl in
      let long =
        ceil_div_pos (t + window s limit - now) s.ticks_per_second (ground arith) (ground arith) in
      let zero_wait = ok_injective h in absurd (ground arith)

  pub room :
      (limit : ActionLimit) (cost : ℕ) (times : List ℕ)
      → leb 1 limit.window_seconds ≡ true
      → leb 1 s.ticks_per_second ≡ true
      → unexpired (window s limit) now times ≡ true
      → wait s now limit cost times ≡ ok 0
      → leb (length times + cost) limit.requests ≡ true
  unfolding wait
  room limit cost times seconds ticks fresh h =
      let fits =
        second_test (ltb limit.requests cost) (ltb limit.requests (length times + cost))
          (wait_until s now limit (nth (length times + cost - limit.requests - 1) times))
          limit.window_seconds seconds
          (no_wait limit times _
            (λ t. nth-all (λ u. ltb (now - u) (window s limit)) times _ t fresh) ticks)
          h in
      ground arith
    where
      second_test :
          (a b : Bool) (x : Result ℕ) (w : ℕ)
          → leb 1 w ≡ true
          → (x ≡ ok 0 → ⊥)
          → (if a then ok w else if b then x else ok 0) ≡ ok 0
          → b ≡ false
      second_test true b x w positive never h = let e = ok_injective h in absurd (ground arith)
      second_test false true x w positive never h = absurd (never h)
      second_test false false x w positive never h = refl

pub length_append_replicate :
    (times : List ℕ) (n t : ℕ) → length (times ++ replicate n t) ≡ length times + n
length_append_replicate [] zero t = refl
length_append_replicate [] (suc n) t = let rest = length_append_replicate [] n t in ground arith
length_append_replicate (x ∷ times) n t =
    let rest = length_append_replicate times n t in ground arith

all_append :
    (f : ℕ → Bool) (times : List ℕ) (n t : ℕ)
    → all f times ≡ true
    → f t ≡ true
    → all f (times ++ replicate n t) ≡ true
all_append f [] zero t h e = refl
all_append f [] (suc n) t h e = let rest = all_append f [] n t in ground arith
all_append f (x ∷ times) n t h e = let rest = all_append f times n t in ground arith

-- Reservations at a time that is not before any other keep the order.
pub ordered_append :
    (times : List ℕ) (n now : ℕ)
    → ordered times ≡ true
    → past now times ≡ true
    → ordered (times ++ replicate n now) ≡ true
ordered_append [] zero now h e = refl
ordered_append [] (suc n) now h e =
    let rest = ordered_append [] n now in let same = all_append (leb now) [] n now in ground arith
ordered_append (x ∷ times) n now h e =
    let rest = ordered_append times n now in
    let later = all_append (leb x) times n now in ground arith

pub past_append :
    (times : List ℕ) (n now : ℕ)
    → past now times ≡ true
    → past now (times ++ replicate n now) ≡ true
past_append times n now h = all_append (λ t. leb t now) times n now h (ground arith)

pub past_later :
    (times : List ℕ) (before now : ℕ)
    → leb before now ≡ true
    → past before times ≡ true
    → past now times ≡ true
past_later times before now le h =
    all_implies (λ t. leb t before) (λ t. leb t now) (λ t a. ground arith) times h
