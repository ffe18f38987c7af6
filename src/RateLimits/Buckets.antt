-- ===== src/RateLimits/Buckets.antt =====
-- The buckets of a limiter by their keys.
use connextion_z_luna.Prelude.{
  ℕ, String, Bool, true, false, ◌≡◌, refl, sym, subst, ◌&&◌, List, [], ◌∷◌, All, str_eq_sound,
  arith, Bool-cases, inl, inr,
}
use connextion_z_luna.RateLimits.{Key, key_eq, Bucket, times_of, put, refresh}

key_eq_sound : (a b : Key) → key_eq a b ≡ true → a ≡ b
key_eq_sound a b h =
    let (kinds, identities, actions) = parts _ _ _ h in
    same_key a b (str_eq_sound a.kind b.kind kinds) (str_eq_sound a.identity b.identity identities)
      (str_eq_sound a.action b.action actions)
  where
    parts : (x y z : Bool) → (x && y && z) ≡ true → (x ≡ true) × (y ≡ true) × (z ≡ true)
    parts x y z h = ground arith

    same_key : (a b : Key) → a.kind ≡ b.kind → a.identity ≡ b.identity → a.action ≡ b.action → a ≡ b
    same_key a b k i c = cc

module _ (P : String → List ℕ → Type 0) where
  -- The times of every bucket have `P` for its action.
  abbrev pub Buckets : List Bucket → Type 0
  Buckets history = All (λ b. P b.key.action b.times) history

  pub times_of-Buckets :
      (key : Key) (history : List Bucket)
      → P key.action []
      → Buckets history
      → P key.action (times_of key history)
  unfolding times_of
  times_of-Buckets key [] empty h = empty
  times_of-Buckets key (b ∷ rest) empty h = elim (Bool-cases (key_eq b.key key)) [
    | inl same ↦ rw same (subst (λ k. P k.action b.times) (key_eq_sound b.key key same) h.0)
    | inr other ↦ rw other (times_of-Buckets key rest empty h.1)
  ]

  pub put-Buckets :
      (key : Key) (times : List ℕ) (history : List Bucket)
      → P key.action times
      → Buckets history
      → Buckets (put key times history)
  unfolding put
  put-Buckets key times [] good h = (good, tt)
  put-Buckets key times (b ∷ rest) good h = elim (Bool-cases (key_eq b.key key)) [
    | inl same ↦
        rw same (subst (λ k. P k.action times) (sym (key_eq_sound b.key key same)) good, h.1)
    | inr other ↦ rw other (h.0, put-Buckets key times rest good h.1)
  ]

  pub refresh-Buckets :
      (key : Key) (times : List ℕ) (history : List Bucket)
      → P key.action times
      → Buckets history
      → Buckets (refresh key times history)
  unfolding refresh
  refresh-Buckets key times [] good h = tt
  refresh-Buckets key times (b ∷ rest) good h = elim (Bool-cases (key_eq b.key key)) [
    | inl same ↦
        rw same (subst (λ k. P k.action times) (sym (key_eq_sound b.key key same)) good, h.1)
    | inr other ↦ rw other (h.0, refresh-Buckets key times rest good h.1)
  ]

-- A change of one bucket leaves the others as they are.
pub times_of-put_other :
    (key other : Key) (times : List ℕ) (history : List Bucket)
    → key_eq key other ≡ false
    → times_of other (put key times history) ≡ times_of other history
unfolding times_of put
times_of-put_other key other times [] differ = rw differ
times_of-put_other key other times (b ∷ rest) differ =
    let later = times_of-put_other key other times rest differ in
    elim (Bool-cases (key_eq b.key key)) [
      | inl same ↦
          let apart =
            subst (λ k. key_eq k other ≡ false) (sym (key_eq_sound b.key key same)) differ in
          rw (same, apart)
      | inr unlike ↦ rw (unlike, later)
    ]

pub times_of-refresh_other :
    (key other : Key) (times : List ℕ) (history : List Bucket)
    → key_eq key other ≡ false
    → times_of other (refresh key times history) ≡ times_of other history
unfolding times_of refresh
times_of-refresh_other key other times [] differ = refl
times_of-refresh_other key other times (b ∷ rest) differ =
    let later = times_of-refresh_other key other times rest differ in
    elim (Bool-cases (key_eq b.key key)) [
      | inl same ↦
          let apart =
            subst (λ k. key_eq k other ≡ false) (sym (key_eq_sound b.key key same)) differ in
          rw (same, apart)
      | inr unlike ↦ rw (unlike, later)
    ]

-- A bucket that is not there is empty, so it may be refreshed to nothing only.
pub times_of-refresh :
    (key : Key) (times : List ℕ) (history : List Bucket)
    → (times_of key history ≡ [] → times ≡ [])
    → times_of key (refresh key times history) ≡ times
unfolding times_of refresh
times_of-refresh key times [] absent = sym (absent refl)
times_of-refresh key times (b ∷ rest) absent = elim (Bool-cases (key_eq b.key key)) [
  | inl same ↦ rw (same, same)
  | inr unlike ↦ rw (unlike, unlike) (times_of-refresh key times rest (λ e. absent (rw unlike e)))
]
