-- ===== src/RateLimits/Reserve.antt =====
-- The check and the reservation of `consume`: room for every cost.
use connextion_z_luna.Prelude.{
  ℕ, zero, suc, String, Bool, true, false, ◌≡◌, refl, sym, subst, ap, ◌∙◌, ◌+◌, leb, Option, none,
  some, List, [], ◌∷◌, ◌++◌, All, any, length, replicate, str_eq, str_eq_refl, str_eq_sound, arith,
  Bool-cases, inl, inr,
}
use connextion_z_luna.Errors.{Result, ok, err}
use connextion_z_luna.Exec.Returns.{ok_injective, err_is_not_ok}
use connextion_z_luna.RateLimits.{
  ActionLimit, Bucket, RateLimiter, key_eq, find_limit, times_of, put, expire, window, max, key_of,
  fresh_times, refreshed, wait_for, check_rest, check, reserve, decide,
}
use connextion_z_luna.RateLimits.Windows.{
  unexpired-expire, room, length_append_replicate, ordered_append, past_append,
}
use connextion_z_luna.RateLimits.Buckets.{
  Buckets, times_of-Buckets, put-Buckets, times_of-put_other, times_of-refresh_other,
  times_of-refresh,
}
use connextion_z_luna.RateLimits.Bounds.{
  IsWithinLimits, distinct, W, times_for, empty-InWindow, refreshed-Buckets,
}

expire_nothing : (w now : ℕ) → expire w now [] ≡ []
unfolding expire
expire_nothing w now = refl

keys_differ :
    (kind identity a b : String)
    → str_eq a b ≡ false
    → key_eq
        (record { kind = kind; identity = identity; action = a })
        (record { kind = kind; identity = identity; action = b })
      ≡ false
keys_differ kind identity a b h = rw (str_eq_refl kind, str_eq_refl identity, h)

max_zero : (w v : ℕ) → max w v ≡ 0 → (w ≡ 0) × (v ≡ 0)
max_zero w v h = ground arith

apart_sym : (a b : String) → str_eq a b ≡ false → str_eq b a ≡ false
apart_sym a b h = elim (Bool-cases (str_eq b a)) [
  | inl same ↦
      absurd (differ (subst (λ x. str_eq a x ≡ false) (str_eq_sound b a same) h) (str_eq_refl a))
  | inr other ↦ other
]
  where
    differ : {x : Bool} → x ≡ false → x ≡ true → ⊥
    differ f t = cc

-- A check whose wait is 0 has waited for nothing.
check_rest_zero :
    (s : RateLimiter) (now : ℕ) (w : Result ℕ) (history : List Bucket)
    (later : Result ℕ × List Bucket)
    → (check_rest s now w history later).0 ≡ ok 0
    → (w ≡ ok 0) × (later.0 ≡ ok 0) × ((check_rest s now w history later).1 ≡ later.1)
check_rest_zero s now (err e) history later h = absurd (err_is_not_ok h)
check_rest_zero s now (ok w) history (err e, later) h = absurd (err_is_not_ok h)
check_rest_zero s now (ok w) history (ok v, later) h =
    let (a, b) = max_zero w v (ok_injective h) in (ap ok a, ap ok b, refl)

module _ (s : RateLimiter) (now : ℕ) (identity : String × String) where
  -- The cost fits the bucket of its action.
  abbrev Fits : List Bucket → String × ℕ → Type 0
  Fits history c =
      (limit : ActionLimit)
      → find_limit c.0 s.limits ≡ some limit
      → leb (length (times_for s now identity c.0 history) + c.1) limit.requests ≡ true

  refreshed_other :
      (action other : String) (o : Option ActionLimit) (history : List Bucket)
      → str_eq other action ≡ false
      → times_for s now identity action (refreshed s now identity other o history)
        ≡ times_for s now identity action history
  refreshed_other action other none history differ = refl
  refreshed_other action other (some limit) history differ =
      times_of-refresh_other (key_of s now identity other) (key_of s now identity action) _ history
        (keys_differ identity.0 identity.1 other action differ)

  check_rest_times :
      (action : String) (w : Result ℕ) (history : List Bucket) (later : Result ℕ × List Bucket)
      (times : List ℕ)
      → times_for s now identity action history ≡ times
      → times_for s now identity action later.1 ≡ times
      → times_for s now identity action (check_rest s now w history later).1 ≡ times
  check_rest_times action (err e) history later times h k = h
  check_rest_times action (ok w) history later times h k = k

  -- The loop over other actions leaves an action's bucket as it is.
  check_other :
      (action : String) (costs : List (String × ℕ)) (history : List Bucket)
      → any (λ d. str_eq d.0 action) costs ≡ false
      → times_for s now identity action (check s now identity costs history).1
        ≡ times_for s now identity action history
  unfolding check
  check_other action [] history h = refl
  check_other action ((other, cost) ∷ rest) history h =
      let o = find_limit other s.limits in
      let after = refreshed s now identity other o history in
      let same = refreshed_other action other o history (ground arith) in
      check_rest_times action (wait_for s now identity other cost o history) after
        (check s now identity rest after) _ same
        (check_other action rest after (ground arith) ∙ same)

  Fits-first :
      (action : String) (cost : ℕ) (o : Option ActionLimit) (history : List Bucket)
      → IsWithinLimits s now
      → find_limit action s.limits ≡ o
      → Buckets (W s now) history
      → wait_for s now identity action cost o history ≡ ok 0
      → Fits (refreshed s now identity action o history) (action, cost)
  Fits-first action cost none history g e h w limit' e' = absurd (err_is_not_ok w)
  Fits-first action cost (some limit) history g e h w limit' e' =
      let key = key_of s now identity action in
      let kept = times_of-Buckets (W s now) key history (empty-InWindow s now action) h in
      let fresh = unexpired-expire (window s limit) now (times_of key history) kept.order in
      let fit = room s now limit cost _ (g.windows action limit e) g.ticks fresh w in
      let times =
        times_of-refresh key (fresh_times s now identity action limit history) history (λ absent.
          ap (expire (window s limit) now) absent ∙ expire_nothing (window s limit) now) in
      subst
        (λ l.
          leb
            (length (
                times_for s now identity action
                  (refreshed s now identity action (some limit) history))
              + cost)
            l.requests
          ≡ true)
        (some_eq (sym e ∙ e'))
        (subst (λ ts. leb (length ts + cost) limit.requests ≡ true) (sym times) fit)
    where
      some_eq : {a b : ActionLimit} → some a ≡ some b → a ≡ b
      some_eq e = cc

  -- After a check whose wait is 0, every cost fits.
  pub check-Fits :
      (costs : List (String × ℕ)) (history : List Bucket)
      → IsWithinLimits s now
      → distinct costs ≡ true
      → Buckets (W s now) history
      → (check s now identity costs history).0 ≡ ok 0
      → All (Fits (check s now identity costs history).1) costs
  unfolding check
  check-Fits [] history g d h w = tt
  check-Fits ((action, cost) ∷ rest) history g d h w =
      let o = find_limit action s.limits in
      let after = refreshed s now identity action o history in
      let (first, zero_rest, last) =
        check_rest_zero s now (wait_for s now identity action cost o history) after
          (check s now identity rest after) w in
      let kept = refreshed-Buckets s now identity action o history h in
      let fit = Fits-first action cost o history g refl h first in
      let same = check_other action rest after (ground arith) in
      let here : Fits (check s now identity rest after).1 (action, cost) = λ limit e.
        subst (λ ts. leb (length ts + cost) limit.requests ≡ true) (sym same) (fit limit e) in
      let others = check-Fits rest after g (ground arith) kept zero_rest in
      subst (λ x. All (Fits x) ((action, cost) ∷ rest)) (sym last) (here, others)

  reserved-InWindow :
      (action : String) (cost : ℕ) (history : List Bucket)
      → Buckets (W s now) history
      → Fits history (action, cost)
      → W s now action (times_for s now identity action history ++ replicate cost now)
  reserved-InWindow action cost history h fit =
      let times = times_for s now identity action history in
      let kept =
        times_of-Buckets (W s now) (key_of s now identity action) history
          (empty-InWindow s now action) h in
      record {
        order = ordered_append times cost now kept.order kept.before;
        before = past_append times cost now kept.before;
        limited = λ limit e.
            subst (λ n. leb n limit.requests ≡ true) (sym (length_append_replicate times cost now))
              (fit limit e);
      }

  Fits-put :
      (action : String) (times : List ℕ) (history : List Bucket) (costs : List (String × ℕ))
      → any (λ d. str_eq d.0 action) costs ≡ false
      → All (Fits history) costs
      → All (Fits (put (key_of s now identity action) times history)) costs
  Fits-put action times history [] d h = tt
  Fits-put action times history ((other, cost) ∷ rest) d h =
      let differ = apart_sym other action (ground arith) in
      let same =
        times_of-put_other (key_of s now identity action) (key_of s now identity other) times
          history (keys_differ identity.0 identity.1 action other differ) in
      (
        (λ limit e.
            subst (λ ts. leb (length ts + cost) limit.requests ≡ true) (sym same) (h.0 limit e)),
        Fits-put action times history rest (ground arith) h.1,
      )

  reserve-Buckets :
      (costs : List (String × ℕ)) (history : List Bucket)
      → distinct costs ≡ true
      → Buckets (W s now) history
      → All (Fits history) costs
      → Buckets (W s now) (reserve s now identity costs history)
  unfolding reserve
  reserve-Buckets [] history d h fit = h
  reserve-Buckets ((action, cost) ∷ rest) history d h fit =
      let times = times_for s now identity action history ++ replicate cost now in
      reserve-Buckets rest (put (key_of s now identity action) times history) (ground arith)
        (put-Buckets (W s now) (key_of s now identity action) times history
          (reserved-InWindow action cost history h fit.0) h)
        (Fits-put action times history rest (ground arith) fit.1)

  pub decide-Buckets :
      (costs : List (String × ℕ)) (w : Result ℕ) (history : List Bucket)
      → distinct costs ≡ true
      → Buckets (W s now) history
      → (w ≡ ok 0 → All (Fits history) costs)
      → Buckets (W s now) (decide s now identity costs w history).1
  decide-Buckets costs (err e) history d h fit = h
  decide-Buckets costs (ok zero) history d h fit = reserve-Buckets costs history d h (fit refl)
  decide-Buckets costs (ok (suc w)) history d h fit = h
