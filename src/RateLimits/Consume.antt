-- ===== src/RateLimits/Consume.antt =====
-- `consume` and the well-formed limiter.
use connextion_z_luna.Prelude.{ℕ, String, Bool, true, false, ◌≡◌, leb, List, [], ◌∷◌, if◌then◌else◌}
use connextion_z_luna.Errors.{Error, Result, ok, err}
use connextion_z_luna.RateLimits.{
  ActionLimit, Bucket, RateLimiter, clean, check, cleaned, clean_up, consume_after, consume,
}
use connextion_z_luna.RateLimits.Windows.{past_later}
use connextion_z_luna.RateLimits.Buckets.{Buckets}
use connextion_z_luna.RateLimits.Bounds.{
  InWindow, IsWithinLimits, distinct, W, clean-Buckets, check-Buckets,
}
use connextion_z_luna.RateLimits.Reserve.{check-Fits, decide-Buckets}

-- Time passes.
later-InWindow :
    (limits : List (String × ActionLimit)) (before now : ℕ) (history : List Bucket)
    → leb before now ≡ true
    → Buckets (InWindow limits before) history
    → Buckets (InWindow limits now) history
later-InWindow limits before now [] le h = tt
later-InWindow limits before now (b ∷ rest) le h = (
  record {
    order = h.0.order;
    before = past_later b.times before now le h.0.before;
    limited = h.0.limited;
  },
  later-InWindow limits before now rest le h.1,
)

module _ (now : ℕ) where
  cleaned-IsWithinLimits :
      (s : RateLimiter) (r : Result (Unit {0}) × List Bucket)
      → IsWithinLimits s now
      → Buckets (W s now) r.1
      → IsWithinLimits (cleaned now s r).1 now
  cleaned-IsWithinLimits s (err e, history) g h = record {
    ticks = g.ticks;
    windows = g.windows;
    buckets = h;
  }
  cleaned-IsWithinLimits s (ok u, history) g h = record {
    ticks = g.ticks;
    windows = g.windows;
    buckets = h;
  }

  clean_up-IsWithinLimits :
      (s : RateLimiter) → IsWithinLimits s now → IsWithinLimits (clean_up now s).1 now
  unfolding clean_up
  clean_up-IsWithinLimits s g =
      either _ _ _
        (cleaned-IsWithinLimits s (clean s now s.history) g
          (clean-Buckets s now s.history g.buckets))
        g
    where
      either :
          (b : Bool) (x y : Result (Unit {0}) × RateLimiter)
          → IsWithinLimits x.1 now
          → IsWithinLimits y.1 now
          → IsWithinLimits (if b then x else y).1 now
      either true x y p q = p
      either false x y p q = q

  consume_after-IsWithinLimits :
      (identity : String × String) (costs : List (String × ℕ)) (r : Result (Unit {0}) × RateLimiter)
      → distinct costs ≡ true
      → IsWithinLimits r.1 now
      → IsWithinLimits (consume_after now identity costs r).1 now
  consume_after-IsWithinLimits identity costs (err e, s) d g = g
  consume_after-IsWithinLimits identity costs (ok u, s) d g =
      let (w, history) = check s now identity costs s.history in
      record {
        ticks = g.ticks;
        windows = g.windows;
        buckets =
            decide-Buckets s now identity costs w history d
              (check-Buckets s now identity costs s.history g.buckets)
              (check-Fits s now identity costs s.history g d g.buckets);
      }

-- Whatever `consume` answers, it leaves a limiter whose buckets are in order, hold no time after now and
-- hold no more times than their action's limit, if the limiter was such a one at an earlier time, its
-- windows and its clock's ticks are positive, and the costs name each action once.
pub consume-IsWithinLimits :
    (before now : ℕ) (identity : String × String) (costs : List (String × ℕ)) (s : RateLimiter)
    → leb before now ≡ true
    → distinct costs ≡ true
    → IsWithinLimits s before
    → IsWithinLimits (consume now identity costs s).1 now
unfolding consume
consume-IsWithinLimits before now identity costs s le d g = refused_or_after _ _ (
    consume_after-IsWithinLimits now identity costs (clean_up now s) d
      (clean_up-IsWithinLimits now s aged))
  where
    aged : IsWithinLimits s now
    aged = record {
      ticks = g.ticks;
      windows = g.windows;
      buckets = later-InWindow s.limits before now s.history le g.buckets;
    }

    refused_or_after :
        (b : Bool) (y : Result (Unit {0}) × RateLimiter)
        → IsWithinLimits y.1 now
        → IsWithinLimits
            (if b then (err (Error.value_error "Action costs must be positive"), s) else y).1
            now
    refused_or_after true y q = aged
    refused_or_after false y q = q
