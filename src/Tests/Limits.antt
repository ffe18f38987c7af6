-- ===== src/Tests/Limits.antt =====
-- Runs of backend/app/rate_limits.py.
use connextion_z_luna.Prelude.{
  ℕ, String, Bool, true, ◌≡◌, refl, none, some, List, [], ◌∷◌, leb, arith, str_eq, All,
  if◌then◌else◌,
}
use connextion_z_luna.Errors.{Error, Result, ok, err}
use connextion_z_luna.RateLimits.{
  ActionLimit, RateLimiter, find_limit, times_of, put, refresh, expire, wait, clean, check, reserve,
  clean_up, consume, rate_limiter,
}
use connextion_z_luna.RateLimits.Demands.{Demand, consume_all, IsLimited, consume_all-IsLimited}

-- Two requests in 60 seconds, of a clock with ten ticks a second.
abbrev limiter : RateLimiter
limiter = record {
  ticks_per_second = 10;
  limits = ("start", record { requests = 2; window_seconds = 60 }) ∷ [];
  history = [];
  last_cleanup = 0;
  cleanup_interval = 60;
}

abbrev start : ℕ → RateLimiter → Result (Unit {0}) × RateLimiter
start now s = consume now ("user", "a") (("start", 1) ∷ []) s

third_is_refused : (start 30 (start 20 (start 10 limiter).1).1).0 ≡ err (Error.rate_limited 58)
unfolding consume clean_up clean check reserve wait expire refresh put times_of find_limit
third_is_refused = refl

first_window_passes : (start 610 (start 20 (start 10 limiter).1).1).0 ≡ ok tt
unfolding consume clean_up clean check reserve wait expire refresh put times_of find_limit
first_window_passes = refl

only_start :
    (b : Bool) (limit : ActionLimit)
    → (if b then some (record { requests = 2; window_seconds = 60 }) else none) ≡ some limit
    → leb 1 limit.window_seconds ≡ true
only_start b limit e = ground arith

abbrev demands : List Demand
demands =
    record { at = 10; identity = ("user", "a"); costs = ("start", 1) ∷ [] }
    ∷ record { at = 20; identity = ("user", "a"); costs = ("start", 1) ∷ [] }
    ∷ record { at = 30; identity = ("user", "a"); costs = ("start", 1) ∷ [] }
    ∷ []

limiter_made : rate_limiter 10 0 limiter.limits ≡ ok limiter
unfolding rate_limiter
limiter_made = refl

limiter_windows :
    (action : String) (limit : ActionLimit)
    → find_limit action limiter.limits ≡ some limit
    → leb 1 limit.window_seconds ≡ true
unfolding find_limit
limiter_windows action = only_start (str_eq "start" action)

consume_all-IsLimited_example : All (IsLimited limiter.limits) (consume_all demands limiter).history
consume_all-IsLimited_example =
    consume_all-IsLimited 10 0 limiter.limits limiter demands refl limiter_windows limiter_made refl
