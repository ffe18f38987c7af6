-- ===== src/RateLimits.antt =====
-- backend/app/rate_limits.py: the sliding windows of `ActionRateLimiter`. A time is a number of ticks
-- of the clock; the limiter holds how many ticks a second has.
pub mod Windows
pub mod Buckets
pub mod Bounds
pub mod Reserve
pub mod Consume
pub mod Demands
use connextion_z_luna.Prelude.{
  ℕ, String, Bool, true, false, not, ◌&&◌, ◌||◌, ◌==◌, ltb, leb, ◌+◌, ◌-◌, zero, suc, ◌*◌, ◌/◌,
  Option, none, some, List, [], ◌∷◌, ◌++◌, replicate, any, length, str_eq, if◌then◌else◌,
}
use connextion_z_luna.Errors.{Error, Result, ok, err, raise_if, ◌>>◌}

pub record ActionLimit : Type 0 where
  pub requests : ℕ
  pub window_seconds : ℕ

-- `ActionLimit.__post_init__`.
action_limit : ActionLimit → Result ActionLimit
action_limit limit =
    raise_if (ltb limit.requests 1 || ltb limit.window_seconds 1)
      (Error.value_error "Rate limits and windows must be positive")
    >> ok limit

-- The key of a bucket: who acts, as a user or an address, and the action.
pub record Key : Type 0 where
  pub kind : String
  pub identity : String
  pub action : String

abbrev pub key_eq : Key → Key → Bool
key_eq a b = str_eq a.kind b.kind && str_eq a.identity b.identity && str_eq a.action b.action

pub record Bucket : Type 0 where
  pub key : Key
  pub times : List ℕ

pub record RateLimiter : Type 0 where
  pub ticks_per_second : ℕ
  pub limits : List (String × ActionLimit)
  pub history : List Bucket
  pub last_cleanup : ℕ
  pub cleanup_interval : ℕ

unfoldable pub find_limit : String → List (String × ActionLimit) → Option ActionLimit
find_limit action [] = none
find_limit action ((name, limit) ∷ rest) =
    if str_eq name action then some limit else find_limit action rest

-- `self._history.get(key, deque())`.
unfoldable pub times_of : Key → List Bucket → List ℕ
times_of key [] = []
times_of key (b ∷ rest) = if key_eq b.key key then b.times else times_of key rest

-- The bucket of a key after a change; a new key comes last.
unfoldable pub put : Key → List ℕ → List Bucket → List Bucket
put key times [] = record { key = key; times = times } ∷ []
put key times (b ∷ rest) =
    if key_eq b.key key then record b { times = times } ∷ rest else b ∷ put key times rest

-- The same for a bucket that is there already; there is no new one.
unfoldable pub refresh : Key → List ℕ → List Bucket → List Bucket
refresh key times [] = []
refresh key times (b ∷ rest) =
    if key_eq b.key key then record b { times = times } ∷ rest else b ∷ refresh key times rest

-- `while bucket and now - bucket[0] >= window: bucket.popleft()`, for a window in ticks.
unfoldable pub expire : ℕ → ℕ → List ℕ → List ℕ
expire window now [] = []
expire window now (t ∷ times) =
    let rest = expire window now times in if leb window (now - t) then rest else t ∷ times

abbrev pub nth : ℕ → List ℕ → Option ℕ
nth n [] = none
nth zero (t ∷ times) = some t
nth (suc n) (t ∷ times) = nth n times

abbrev pub max : ℕ → ℕ → ℕ
max a b = if ltb a b then b else a

abbrev pub ceil_div : ℕ → ℕ → ℕ
ceil_div a b = (a + (b - 1)) / b

-- The window of a limit in ticks.
abbrev pub window : RateLimiter → ActionLimit → ℕ
window s limit = limit.window_seconds * s.ticks_per_second

module _ (s : RateLimiter) (now : ℕ) where
  abbrev pub keep_bucket : Bucket → List ℕ → List Bucket → List Bucket
  keep_bucket b [] others = others
  keep_bucket b (t ∷ times) others = record b { times = t ∷ times } ∷ others

  abbrev pub clean_bucket :
      Bucket
      → List Bucket
      → Option ActionLimit
      → Result (Unit {0}) × List Bucket
      → Result (Unit {0}) × List Bucket
  clean_bucket b rest none others = (err Error.lookup_error, b ∷ rest)
  clean_bucket b rest (some limit) others =
      (others.0, keep_bucket b (expire (window s limit) now b.times) others.1)

  -- The cleanup of every bucket; a key whose action has no limit stops it with a `KeyError`.
  unfoldable pub clean : List Bucket → Result (Unit {0}) × List Bucket
  clean [] = (ok tt, [])
  clean (b ∷ rest) = clean_bucket b rest (find_limit b.key.action s.limits) (clean rest)

  -- The seconds until the time that must expire has done so.
  abbrev pub wait_until : ActionLimit → Option ℕ → Result ℕ
  wait_until limit none = err Error.lookup_error
  wait_until limit (some expiry) = ok (ceil_div (expiry + window s limit - now) s.ticks_per_second)

  -- The seconds after which a cost fits a bucket without expired times; 0 if it fits now.
  unfoldable pub wait : ActionLimit → ℕ → List ℕ → Result ℕ
  wait limit cost times =
      if ltb limit.requests cost
      then ok limit.window_seconds
      else if ltb limit.requests (length times + cost)
      then wait_until limit (nth (length times + cost - limit.requests - 1) times)
      else ok 0

  -- What the loop over the costs knows after one of them.
  abbrev wait_max : ℕ → Result ℕ → Result ℕ
  wait_max w (err e) = err e
  wait_max w (ok v) = ok (max w v)

  abbrev pub check_rest : Result ℕ → List Bucket → Result ℕ × List Bucket → Result ℕ × List Bucket
  check_rest (err e) history later = (err e, history)
  check_rest (ok w) history later = (wait_max w later.0, later.1)

  abbrev pub key_of : String × String → String → Key
  key_of identity action = record { kind = identity.0; identity = identity.1; action = action }

  -- The bucket of an action without its expired times.
  abbrev pub fresh_times : String × String → String → ActionLimit → List Bucket → List ℕ
  fresh_times identity action limit history =
      expire (window s limit) now (times_of (key_of identity action) history)

  abbrev pub refreshed : String × String → String → Option ActionLimit → List Bucket → List Bucket
  refreshed identity action none history = history
  refreshed identity action (some limit) history =
      refresh (key_of identity action) (fresh_times identity action limit history) history

  abbrev pub wait_for : String × String → String → ℕ → Option ActionLimit → List Bucket → Result ℕ
  wait_for identity action cost none history = err Error.lookup_error
  wait_for identity action cost (some limit) history =
      wait limit cost (fresh_times identity action limit history)

  -- The first loop of `consume`: the largest wait, and the history without the expired times.
  unfoldable pub check : String × String → List (String × ℕ) → List Bucket → Result ℕ × List Bucket
  check identity [] history = (ok 0, history)
  check identity ((action, cost) ∷ rest) history =
      let limit = find_limit action s.limits in
      let after = refreshed identity action limit history in
      check_rest (wait_for identity action cost limit history) after (check identity rest after)

  -- The second loop: every action's bucket takes its cost at this time.
  unfoldable pub reserve : String × String → List (String × ℕ) → List Bucket → List Bucket
  reserve identity [] history = history
  reserve identity ((action, cost) ∷ rest) history =
      let key = key_of identity action in
      reserve identity rest (put key (times_of key history ++ replicate cost now) history)

  abbrev pub decide :
      String × String → List (String × ℕ) → Result ℕ → List Bucket → Result (Unit {0}) × List Bucket
  decide identity costs (err e) history = (err e, history)
  decide identity costs (ok zero) history = (ok tt, reserve identity costs history)
  decide identity costs (ok (suc w)) history = (err (Error.rate_limited (suc w)), history)

abbrev pub cleaned :
    ℕ → RateLimiter → Result (Unit {0}) × List Bucket → Result (Unit {0}) × RateLimiter
cleaned now s (err e, history) = (err e, record s { history = history })
cleaned now s (ok u, history) = (ok tt, record s { history = history; last_cleanup = now })

-- The cleanup, when its interval has passed.
unfoldable pub clean_up : ℕ → RateLimiter → Result (Unit {0}) × RateLimiter
clean_up now s =
    if leb (s.cleanup_interval * s.ticks_per_second) (now - s.last_cleanup)
    then cleaned now s (clean s now s.history)
    else (ok tt, s)

abbrev decided : RateLimiter → Result (Unit {0}) × List Bucket → Result (Unit {0}) × RateLimiter
decided s (r, history) = (r, record s { history = history })

abbrev pub consume_after :
    ℕ
    → String × String
    → List (String × ℕ)
    → Result (Unit {0}) × RateLimiter
    → Result (Unit {0}) × RateLimiter
consume_after now identity costs (err e, s) = (err e, s)
consume_after now identity costs (ok u, s) =
    let (wait, history) = check s now identity costs s.history in
    decided s (decide s now identity costs wait history)

-- `ActionRateLimiter.consume` at the time `now`. A cost is a natural number; a negative one is
-- refused as 0 is.
unfoldable pub consume :
    ℕ → String × String → List (String × ℕ) → RateLimiter → Result (Unit {0}) × RateLimiter
consume now identity costs s =
    if any (λ cost. ltb cost.1 1) costs
    then (err (Error.value_error "Action costs must be positive"), s)
    else consume_after now identity costs (clean_up now s)

abbrev longest_window : List (String × ActionLimit) → ℕ
longest_window [] = 0
longest_window ((action, limit) ∷ rest) = max limit.window_seconds (longest_window rest)

-- `ActionRateLimiter.__init__`, at the time `now` of a clock.
unfoldable pub rate_limiter : ℕ → ℕ → List (String × ActionLimit) → Result RateLimiter
rate_limiter ticks_per_second now [] =
    err (Error.value_error "At least one action limit is required")
rate_limiter ticks_per_second now (entry ∷ rest) = ok (record {
  ticks_per_second = ticks_per_second;
  limits = entry ∷ rest;
  history = [];
  last_cleanup = now;
  cleanup_interval = longest_window (entry ∷ rest);
})

-- `client_identity`.
client_identity : Option String → String → String × String
client_identity none client_ip = ("ip", client_ip)
client_identity (some user_id) client_ip = ("user", user_id)
