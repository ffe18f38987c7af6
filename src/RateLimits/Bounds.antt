-- ===== src/RateLimits/Bounds.antt =====
-- The well-formed buckets of a limiter, and the two loops that drop expired times.
use connextion_z_luna.Prelude.{
  ℕ, String, Bool, true, not, ◌≡◌, refl, ◌&&◌, leb, Option, none, some, List, [], ◌∷◌, any, length,
  str_eq, arith,
}
use connextion_z_luna.Errors.{Result, ok, err}
use connextion_z_luna.RateLimits.{
  ActionLimit, Bucket, RateLimiter, find_limit, times_of, expire, keep_bucket, clean_bucket, clean,
  key_of, refreshed, check_rest, check,
}
use connextion_z_luna.RateLimits.Windows.{ordered, past, all-expire, ordered-expire, length-expire}
use connextion_z_luna.RateLimits.Buckets.{Buckets, times_of-Buckets, refresh-Buckets}

-- The times are in order, none is after `now`, and there are no more than the action's limit.
pub record InWindow (limits : List (String × ActionLimit)) (now : ℕ) (action : String)
    (times : List ℕ) : Type 0 where
  pub order : ordered times ≡ true
  pub before : past now times ≡ true
  pub limited :
      (limit : ActionLimit)
      → find_limit action limits ≡ some limit
      → leb (length times) limit.requests ≡ true

-- The actions of a request's costs, which are the keys of a dict.
abbrev pub distinct : List (String × ℕ) → Bool
distinct [] = true
distinct (c ∷ rest) = not (any (λ d. str_eq d.0 c.0) rest) && distinct rest

-- A limiter that was made by the constructor and used until `now`.
pub record IsWithinLimits (s : RateLimiter) (now : ℕ) : Type 0 where
  pub ticks : leb 1 s.ticks_per_second ≡ true
  pub windows :
      (action : String) (limit : ActionLimit)
      → find_limit action s.limits ≡ some limit
      → leb 1 limit.window_seconds ≡ true
  pub buckets : Buckets (InWindow s.limits now) s.history

module _ (s : RateLimiter) (now : ℕ) where
  abbrev pub W : String → List ℕ → Type 0
  W = InWindow s.limits now

  pub empty-InWindow : (action : String) → W action []
  empty-InWindow action = record { order = refl; before = refl; limited = λ limit e. ground arith }

  expire-InWindow :
      (w : ℕ) (action : String) (times : List ℕ) → W action times → W action (expire w now times)
  expire-InWindow w action times h = record {
    order = ordered-expire w now times h.order;
    before = all-expire w now (λ t. leb t now) times h.before;
    limited = λ limit e.
        let fewer = length-expire w now times in let few = h.limited limit e in ground arith;
  }

  keep_bucket-Buckets :
      (b : Bucket) (times : List ℕ) (others : List Bucket)
      → W b.key.action times
      → Buckets W others
      → Buckets W (keep_bucket s now b times others)
  keep_bucket-Buckets b [] others h k = k
  keep_bucket-Buckets b (t ∷ times) others h k = (h, k)

  clean_bucket-Buckets :
      (b : Bucket) (rest : List Bucket) (o : Option ActionLimit)
      (others : Result (Unit {0}) × List Bucket)
      → W b.key.action b.times
      → Buckets W rest
      → Buckets W others.1
      → Buckets W (clean_bucket s now b rest o others).1
  clean_bucket-Buckets b rest none others h k j = (h, k)
  clean_bucket-Buckets b rest (some limit) others h k j =
      keep_bucket-Buckets b _ others.1 (expire-InWindow _ b.key.action b.times h) j

  pub clean-Buckets :
      (history : List Bucket) → Buckets W history → Buckets W (clean s now history).1
  unfolding clean
  clean-Buckets [] h = tt
  clean-Buckets (b ∷ rest) h =
      clean_bucket-Buckets b rest _ (clean s now rest) h.0 h.1 (clean-Buckets rest h.1)

  module _ (identity : String × String) where
    abbrev pub times_for : String → List Bucket → List ℕ
    times_for action history = times_of (key_of s now identity action) history

    pub refreshed-Buckets :
        (action : String) (o : Option ActionLimit) (history : List Bucket)
        → Buckets W history
        → Buckets W (refreshed s now identity action o history)
    refreshed-Buckets action none history h = h
    refreshed-Buckets action (some limit) history h =
        refresh-Buckets W (key_of s now identity action) _ history
          (expire-InWindow _ action (times_for action history)
            (times_of-Buckets W (key_of s now identity action) history (empty-InWindow action) h))
          h

    check_rest-Buckets :
        (w : Result ℕ) (history : List Bucket) (later : Result ℕ × List Bucket)
        → Buckets W history
        → Buckets W later.1
        → Buckets W (check_rest s now w history later).1
    check_rest-Buckets (err e) history later h k = h
    check_rest-Buckets (ok w) history later h k = k

    pub check-Buckets :
        (costs : List (String × ℕ)) (history : List Bucket)
        → Buckets W history
        → Buckets W (check s now identity costs history).1
    unfolding check
    check-Buckets [] history h = h
    check-Buckets ((action, cost) ∷ rest) history h =
        let after = refreshed s now identity action (find_limit action s.limits) history in
        let kept = refreshed-Buckets action (find_limit action s.limits) history h in
        check_rest-Buckets _ after (check s now identity rest after) kept
          (check-Buckets rest after kept)
