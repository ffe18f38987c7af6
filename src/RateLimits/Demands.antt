-- ===== src/RateLimits/Demands.antt =====
-- Any requests in turn, from the limiter that the constructor makes.
use connextion_z_luna.Prelude.{
  ℕ, String, Bool, true, false, ◌≡◌, refl, subst, ◌∙◌, ◌&&◌, leb, some, List, [], ◌∷◌, All, length,
  arith, if◌then◌else◌,
}
use connextion_z_luna.Errors.{Error, Result, ok, err}
use connextion_z_luna.Exec.Returns.{ok_injective, err_is_not_ok}
use connextion_z_luna.RateLimits.{
  ActionLimit, Bucket, RateLimiter, find_limit, clean, cleaned, clean_up, consume_after, consume,
  rate_limiter,
}
use connextion_z_luna.RateLimits.Buckets.{Buckets}
use connextion_z_luna.RateLimits.Bounds.{InWindow, IsWithinLimits, distinct}
use connextion_z_luna.RateLimits.Consume.{consume-IsWithinLimits}

new-IsWithinLimits :
    (ticks now : ℕ) (limits : List (String × ActionLimit)) (s : RateLimiter)
    → leb 1 ticks ≡ true
    → ((action : String) (limit : ActionLimit)
        → find_limit action limits ≡ some limit
        → leb 1 limit.window_seconds ≡ true)
    → rate_limiter ticks now limits ≡ ok s
    → IsWithinLimits s now
unfolding rate_limiter
new-IsWithinLimits ticks now [] s t w h = absurd (err_is_not_ok h)
new-IsWithinLimits ticks now (entry ∷ rest) s t w h =
    subst (λ x. IsWithinLimits x now) (ok_injective h)
      (record { ticks = t; windows = w; buckets = tt })

-- A request at a time: who asks, and for what.
pub record Demand : Type 0 where
  pub at : ℕ
  pub identity : String × String
  pub costs : List (String × ℕ)

-- The limiter after the requests in turn, refused or not.
unfoldable pub consume_all : List Demand → RateLimiter → RateLimiter
consume_all [] s = s
consume_all (d ∷ demands) s = consume_all demands (consume d.at d.identity d.costs s).1

-- The clock does not go back, and each request names an action once.
abbrev in_turn : ℕ → List Demand → Bool
in_turn now [] = true
in_turn now (d ∷ demands) = leb now d.at && distinct d.costs && in_turn d.at demands

consume_all-Buckets :
    (demands : List Demand) (now : ℕ) (s : RateLimiter)
    → in_turn now demands ≡ true
    → IsWithinLimits s now
    → (last : ℕ) × IsWithinLimits (consume_all demands s) last
unfolding consume_all
consume_all-Buckets [] now s h g = (now, g)
consume_all-Buckets (d ∷ demands) now s h g =
    consume_all-Buckets demands d.at (consume d.at d.identity d.costs s).1 (ground arith)
      (consume-IsWithinLimits now d.at d.identity d.costs s (ground arith) (ground arith) g)

limits-consume_after :
    (now : ℕ) (identity : String × String) (costs : List (String × ℕ))
    (r : Result (Unit {0}) × RateLimiter)
    → (consume_after now identity costs r).1.limits ≡ r.1.limits
limits-consume_after now identity costs (err e, s) = refl
limits-consume_after now identity costs (ok u, s) = refl

limits-clean_up : (now : ℕ) (s : RateLimiter) → (clean_up now s).1.limits ≡ s.limits
unfolding clean_up
limits-clean_up now s = either _ (clean s now s.history)
  where
    either :
        (b : Bool) (r : Result (Unit {0}) × List Bucket)
        → (if b then cleaned now s r else (ok tt, s)).1.limits ≡ s.limits
    either true (err e, history) = refl
    either true (ok u, history) = refl
    either false r = refl

limits-consume :
    (now : ℕ) (identity : String × String) (costs : List (String × ℕ)) (s : RateLimiter)
    → (consume now identity costs s).1.limits ≡ s.limits
unfolding consume
limits-consume now identity costs s =
    either _ _ (limits-consume_after now identity costs (clean_up now s) ∙ limits-clean_up now s)
  where
    either :
        (b : Bool) (y : Result (Unit {0}) × RateLimiter)
        → y.1.limits ≡ s.limits
        → (if b then (err (Error.value_error "Action costs must be positive"), s) else y).1.limits
          ≡ s.limits
    either true y e = refl
    either false y e = e

limits-consume_all :
    (demands : List Demand) (s : RateLimiter) → (consume_all demands s).limits ≡ s.limits
unfolding consume_all
limits-consume_all [] s = refl
limits-consume_all (d ∷ demands) s =
    limits-consume_all demands (consume d.at d.identity d.costs s).1
    ∙ limits-consume d.at d.identity d.costs s

-- A bucket holds no more times than the limit of its action.
abbrev pub IsLimited : List (String × ActionLimit) → Bucket → Type 0
IsLimited limits b =
    (limit : ActionLimit)
    → find_limit b.key.action limits ≡ some limit
    → leb (length b.times) limit.requests ≡ true

IsLimited-Buckets :
    (limits : List (String × ActionLimit)) (now : ℕ) (history : List Bucket)
    → Buckets (InWindow limits now) history
    → All (IsLimited limits) history
IsLimited-Buckets limits now [] h = tt
IsLimited-Buckets limits now (b ∷ rest) h = (h.0.limited, IsLimited-Buckets limits now rest h.1)

-- From the limiter that the constructor makes of limits with positive windows, on a clock with positive
-- ticks, no requests at times that do not go back, each with every action once, refused or not,
-- leave a bucket with more times than the limit of its action.
pub consume_all-IsLimited :
    (ticks now : ℕ) (limits : List (String × ActionLimit)) (s : RateLimiter) (demands : List Demand)
    → leb 1 ticks ≡ true
    → ((action : String) (limit : ActionLimit)
        → find_limit action limits ≡ some limit
        → leb 1 limit.window_seconds ≡ true)
    → rate_limiter ticks now limits ≡ ok s
    → in_turn now demands ≡ true
    → All (IsLimited s.limits) (consume_all demands s).history
consume_all-IsLimited ticks now limits s demands t w made turn =
    let (last, g) =
      consume_all-Buckets demands now s turn (new-IsWithinLimits ticks now limits s t w made) in
    subst (λ l. All (IsLimited l) (consume_all demands s).history) (limits-consume_all demands s)
      (IsLimited-Buckets (consume_all demands s).limits last (consume_all demands s).history
        g.buckets)
