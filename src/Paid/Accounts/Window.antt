-- ===== src/Paid/Accounts/Window.antt =====
-- The frequency cap: how many impressions of a viewer a window may hold.
use connextion_z_luna.Prelude.{
  ℕ, ℤ, pos, negsuc, String, Bool, true, false, ◌≡◌, refl, sym, ap, subst, ◌∙◌, not, ◌&&◌, ◌||◌,
  ◌==◌, ltb, leb, ◌+◌, ◌-◌, ◌≤◌, ◌<◌, ◌⊎◌, Option, none, some, List, [], ◌∷◌, ◌++◌, any, find,
  count, arith, Bool-cases, inl, inr, if◌then◌else◌,
}
use connextion_z_luna.Prelude.Rows.{unique, IsLocated, find-IsLocated, count-append, write-middle}
use connextion_z_luna.Errors.{Error, Result, ok, err}
use connextion_z_luna.Exec.Returns.{ok_injective}
use connextion_z_luna.Paid.Model.{PaidCampaign, PaidDelivery}
use connextion_z_luna.Paid.Frequency.{
  FrequencyStatus, FrequencyEligibility, is_allowed, microseconds, decide, check_window, check_pair,
  check,
}
use connextion_z_luna.Paid.Database.{
  Database, is_impression, is_viewed, viewer_count, is_complete, count_paid_impressions,
}
use connextion_z_luna.Paid.Writes.{replace_delivery, find_selection}
use connextion_z_luna.Paid.Calls.{Call, serve}
use connextion_z_luna.Paid.Rules.{some_eq, guard-ok}
use connextion_z_luna.Paid.Steps.{
  Step, stay, created, updated, selected, recorded, issued, consumed, IsImpressible, impressed,
}
use connextion_z_luna.Paid.Steps.Calls.{serve-Step}

-- Only a count below the cap is allowed.
decide-allowed :
    (cap : ℕ) (r : Result ℤ) (f : FrequencyEligibility)
    → decide cap r ≡ ok f
    → is_allowed f ≡ true
    → (n : ℕ) × (r ≡ ok (pos n)) × (n < cap)
unfolding decide
decide-allowed cap (err (Error.history_unavailable reason)) f h a =
    absurd (ground (arith, ap is_allowed (ok_injective h)))
decide-allowed cap (err e) f h a = absurd (ground arith)
decide-allowed cap (ok (negsuc n)) f h a = absurd (ground arith)
decide-allowed cap (ok (pos n)) f h a =
    (n, refl, below (subst (λ x. is_allowed x ≡ true) (sym (ok_injective h)) a))
  where
    below :
        is_allowed (record {
          status = if ltb n cap then FrequencyStatus.allowed else FrequencyStatus.capped;
          impressions = some n;
          reason = none;
        })
          ≡ true
        → n < cap
    below e = ground arith

count-reads :
    (viewer_id campaign_id start_at end_at n : ℕ) (s : Database)
    → count_paid_impressions viewer_id campaign_id start_at end_at s ≡ ok (pos n)
    → viewer_count viewer_id campaign_id start_at end_at s.deliveries ≡ n
unfolding count_paid_impressions
count-reads viewer_id campaign_id start_at end_at n s h =
    let (ordered, rest) = guard-ok (ltb end_at start_at) _ _ (pos n) h in
    let (complete, counted) =
      guard-ok (not (is_complete (find (λ c. c.id == campaign_id) s.campaigns) s.deliveries)) _ _
        (pos n) rest in
    inside (ok_injective counted)
  where
    inside : {a b : ℕ} → pos a ≡ pos b → a ≡ b
    inside e = cc

abbrev pub since : ℕ → ℕ → ℕ
since window now = now - microseconds window

module _ (cap window campaign_id viewer_id now : ℕ) (s : Database) where
  window-allowed :
      (f : FrequencyEligibility)
      → check_window count_paid_impressions cap window campaign_id viewer_id now s ≡ ok f
      → is_allowed f ≡ true
      → viewer_count viewer_id campaign_id (since window now) now s.deliveries < cap
  unfolding check_window
  window-allowed f h a =
      let (positive, rest) = guard-ok (leb cap 0 || leb window 0) _ _ f h in
      let (in_range, decided) = guard-ok (ltb now (microseconds window)) _ _ f rest in
      let (n, counted, below) =
        decide-allowed cap (count_paid_impressions viewer_id campaign_id (since window now) now s) f
          decided a in
      omega (arith, count-reads viewer_id campaign_id (since window now) now n s counted)

  pair-allowed :
      (caps windows : Option ℕ) (f : FrequencyEligibility)
      → check_pair count_paid_impressions caps windows campaign_id viewer_id now s ≡ ok f
      → is_allowed f ≡ true
      → caps ≡ some cap
      → windows ≡ some window
      → viewer_count viewer_id campaign_id (since window now) now s.deliveries < cap
  unfolding check_pair
  pair-allowed caps windows f h a c w =
      window-allowed f
        (subst
          (λ x. check_pair count_paid_impressions (some cap) x campaign_id viewer_id now s ≡ ok f) w
          (subst
            (λ x. check_pair count_paid_impressions x windows campaign_id viewer_id now s ≡ ok f) c
            h))
        a

module _ (viewer_id id start_at end_at : ℕ) (rows : List PaidDelivery) (d e : PaidDelivery) where
  -- One row changed under its key adds one to a count at most, and adds nothing to the count of
  -- another viewer or another campaign.
  counted-replaced :
      IsLocated (λ x. x.id) d rows
      → e.id ≡ d.id
      → (viewer_count viewer_id id start_at end_at (replace_delivery e rows)
          ≤ viewer_count viewer_id id start_at end_at rows + 1)
        × ((is_impression id e && is_viewed viewer_id start_at end_at e) ≡ false
            → viewer_count viewer_id id start_at end_at (replace_delivery e rows)
              ≤ viewer_count viewer_id id start_at end_at rows)
  unfolding viewer_count replace_delivery
  counted-replaced l same = (
    ground (
      arith,
      ap seen replaced,
      ap seen l.split,
      count-append test l.before (e ∷ l.after),
      count-append test l.before (d ∷ l.after),
    ),
    λ h. ground (
      arith,
      ap seen replaced,
      ap seen l.split,
      count-append test l.before (e ∷ l.after),
      count-append test l.before (d ∷ l.after),
    ),
  )
    where
      test : PaidDelivery → Bool
      test x = is_impression id x && is_viewed viewer_id start_at end_at x

      seen : List PaidDelivery → ℕ
      seen rows = count test rows

      replaced : replace_delivery e rows ≡ l.before ++ e ∷ l.after
      replaced =
          ap (replace_delivery e) l.split
          ∙ write-middle (λ x. x.id) e d l.before l.after (sym same)
              (subst (λ k. any (λ r. r.id == k) l.before ≡ false) (sym same) l.not_before)
              (subst (λ k. any (λ r. r.id == k) l.after ≡ false) (sym same) l.not_after)

-- How many impressions of the viewer the window that ends now holds.
abbrev pub seen_in : ℕ → PaidCampaign → ℕ → Database → List PaidDelivery → ℕ
seen_in window c viewer_id s rows = viewer_count viewer_id c.id (since window s.now) s.now rows

module _ (s : Database) (c : PaidCampaign) (cap window viewer_id : ℕ)
    (distinct : unique (λ d. d.id) s.deliveries ≡ true)
    (found : find (λ x. x.id == c.id) s.campaigns ≡ some c) (capped : c.frequency_cap ≡ some cap)
    (windowed : c.frequency_window_seconds ≡ some window) where
  selected-seen :
      (d : PaidDelivery)
      → d.impressed_at ≡ none
      → seen_in window c viewer_id s (s.deliveries ++ d ∷ [])
        ≤ seen_in window c viewer_id s s.deliveries
  unfolding viewer_count is_impression
  selected-seen d fresh = ground (
    arith,
    count-append (λ x. is_impression c.id x && is_viewed viewer_id (since window s.now) s.now x)
        s.deliveries (d ∷ []),
  )

  -- An impression that counts for the viewer was below the cap before.
  recorded-below :
      (b : PaidCampaign) (d : PaidDelivery)
      → IsImpressible s b d
      → (is_impression c.id (impressed s.now d)
          && is_viewed viewer_id (since window s.now) s.now (impressed s.now d))
        ≡ true
      → seen_in window c viewer_id s s.deliveries < cap
  unfolding is_impression is_viewed check
  recorded-below b d i hit =
      subst (λ v. seen_in window c v s s.deliveries < cap) mine
        (pair-allowed cap window c.id d.viewer_id s.now s c.frequency_cap c.frequency_window_seconds
          i.frequency
          (subst (λ x. check count_paid_impressions x d.viewer_id s.now s ≡ ok i.frequency) same
            i.checked)
          i.permitted capped windowed)
    where
      ours : b.id ≡ c.id
      ours = ground (arith, i.of_campaign)

      mine : d.viewer_id ≡ viewer_id
      mine = ground arith

      same : b ≡ c
      same =
          some_eq
            (sym (subst (λ k. find (λ x. x.id == k) s.campaigns ≡ some b) ours i.locked) ∙ found)

  recorded-seen :
      (b : PaidCampaign) (d : PaidDelivery)
      → IsImpressible s b d
      → (seen_in window c viewer_id s (replace_delivery (impressed s.now d) s.deliveries) ≤ cap)
        ⊎ (seen_in window c viewer_id s (replace_delivery (impressed s.now d) s.deliveries)
            ≤ seen_in window c viewer_id s s.deliveries)
  unfolding find_selection
  recorded-seen b d i =
      let l = find-IsLocated (λ x. x.id) _ s.deliveries d distinct i.selected in
      let (one_more, none_more) =
        counted-replaced viewer_id c.id (since window s.now) s.now s.deliveries d
          (impressed s.now d) l refl in
      elim (Bool-cases (
        is_impression c.id (impressed s.now d)
        && is_viewed viewer_id (since window s.now) s.now (impressed s.now d))) [
          | inl hit ↦ inl (omega (arith, recorded-below b d i hit))
          | inr miss ↦ inr (none_more miss)
        ]

  Step-seen :
      {t : Database}
      → Step s t
      → (seen_in window c viewer_id s t.deliveries ≤ cap)
        ⊎ (seen_in window c viewer_id s t.deliveries ≤ seen_in window c viewer_id s s.deliveries)
  Step-seen stay = inr (omega arith)
  Step-seen (created d n) = inr (omega arith)
  Step-seen (updated b d old u) = inr (omega arith)
  Step-seen (selected d fresh there unused) = inr (selected-seen d fresh)
  Step-seen (recorded b d i k) = recorded-seen b d i
  Step-seen (issued x fresh unused) = inr (omega arith)
  Step-seen (consumed x old fresh live) = inr (omega arith)

  -- Where deliveries have different identifiers, no call takes the number of impressions of a viewer
  -- above the frequency cap of a campaign that has one: after the call, the window that ends at the
  -- time of the call holds as many impressions of the viewer as the cap at most, or no more than it
  -- held before.
  pub serve-IsCapped :
      (digest : String → String) (call : Call)
      → (seen_in window c viewer_id s (serve digest call s).deliveries ≤ cap)
        ⊎ (seen_in window c viewer_id s (serve digest call s).deliveries
            ≤ seen_in window c viewer_id s s.deliveries)
  serve-IsCapped digest call = Step-seen (serve-Step digest call s)
