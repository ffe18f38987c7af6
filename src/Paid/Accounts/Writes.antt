-- ===== src/Paid/Accounts/Writes.antt =====
-- What one delivery more, or one impression more, does to the counts.
use mathlib.Core.List.{map-append, append-nil}
use connextion_z_luna.Prelude.{
  ℕ, true, false, ◌≡◌, refl, sym, ap, subst, ◌∙◌, ◌==◌, ◌+◌, none, is_some, List, [], ◌∷◌, ◌++◌,
  map, any, filter, contains, count_distinct, arith, Bool-cases, inl, inr, if◌then◌else◌,
}
use connextion_z_luna.Prelude.Rows.{
  IsLocated, write-middle, count-append, filter-append, count_distinct-middle,
}
use connextion_z_luna.Paid.Model.{PaidDelivery}
use connextion_z_luna.Paid.Database.{is_impression, total, reach}
use connextion_z_luna.Paid.Writes.{replace_delivery, previously_reached}

abbrev pub viewers : ℕ → List PaidDelivery → List ℕ
viewers id rows = map (λ d. d.viewer_id) (filter (is_impression id) rows)

module _ (id : ℕ) (before : List PaidDelivery) (d : PaidDelivery) (after : List PaidDelivery) where
  total-middle :
      total id (before ++ d ∷ after)
      ≡ total id (before ++ after) + (if is_impression id d then 1 else 0)
  unfolding total
  total-middle = ground (
    arith,
    count-append (is_impression id) before (d ∷ after),
    count-append (is_impression id) before after,
  )

  viewers-uncounted :
      is_impression id d ≡ false → viewers id (before ++ d ∷ after) ≡ viewers id (before ++ after)
  viewers-uncounted h = rw (
    filter-append (is_impression id) before (d ∷ after),
    filter-append (is_impression id) before after,
    h,
  )

  viewers-counted :
      is_impression id d ≡ true
      → viewers id (before ++ d ∷ after) ≡ viewers id before ++ d.viewer_id ∷ viewers id after
  viewers-counted h =
      rw (filter-append (is_impression id) before (d ∷ after), h)
        (map-append (λ e. e.viewer_id) (filter (is_impression id) before)
          (d ∷ filter (is_impression id) after))

  viewers-without : viewers id (before ++ after) ≡ viewers id before ++ viewers id after
  viewers-without = rw (filter-append (is_impression id) before after) (
      map-append (λ e. e.viewer_id) (filter (is_impression id) before)
        (filter (is_impression id) after))

  reach-uncounted :
      is_impression id d ≡ false → reach id (before ++ d ∷ after) ≡ reach id (before ++ after)
  unfolding reach
  reach-uncounted h = ap count_distinct (viewers-uncounted h)

  reach-counted :
      is_impression id d ≡ true
      → reach id (before ++ d ∷ after)
        ≡ reach id (before ++ after)
          + (if contains (viewers id (before ++ after)) d.viewer_id then 0 else 1)
  unfolding reach
  reach-counted h =
      rw (viewers-counted h, viewers-without)
        (count_distinct-middle (viewers id before) d.viewer_id (viewers id after))

previously_reached-contains :
    (id viewer : ℕ) (rows : List PaidDelivery)
    → previously_reached id viewer rows ≡ contains (viewers id rows) viewer
unfolding previously_reached
previously_reached-contains id viewer [] = refl
previously_reached-contains id viewer (d ∷ rows) =
    ground (arith, previously_reached-contains id viewer rows)

-- A delivery without an impression adds nothing to the counts.
module _ (id : ℕ) (rows : List PaidDelivery) (d : PaidDelivery) (h : d.impressed_at ≡ none) where
  uncounted : is_impression id d ≡ false
  unfolding is_impression
  uncounted = ground arith

  pub total-selected : total id (rows ++ d ∷ []) ≡ total id rows
  total-selected =
      ground (arith, total-middle id rows d [], uncounted, ap (total id) (append-nil rows))

  pub reach-selected : reach id (rows ++ d ∷ []) ≡ reach id rows
  reach-selected = reach-uncounted id rows d [] uncounted ∙ ap (reach id) (append-nil rows)

plus_zero : (n : ℕ) → n ≡ n + 0
plus_zero n = omega arith

-- An impression that is recorded adds one to the counts of its campaign, as far as its viewer is new.
module _ (id : ℕ) (rows : List PaidDelivery) (d e : PaidDelivery) (h : d.impressed_at ≡ none)
    (seen : is_some e.impressed_at ≡ true) (same : e.id ≡ d.id)
    (own : e.campaign_id ≡ d.campaign_id) (mine : e.viewer_id ≡ d.viewer_id)
    (l : IsLocated (λ x. x.id) d rows) where
  replaced : replace_delivery e rows ≡ l.before ++ e ∷ l.after
  unfolding replace_delivery
  replaced =
      ap (replace_delivery e) l.split
      ∙ write-middle (λ x. x.id) e d l.before l.after (sym same)
          (subst (λ k. any (λ r. r.id == k) l.before ≡ false) (sym same) l.not_before)
          (subst (λ k. any (λ r. r.id == k) l.after ≡ false) (sym same) l.not_after)

  counted_by_campaign : is_impression id e ≡ (d.campaign_id == id)
  unfolding is_impression
  counted_by_campaign = ground arith

  pub total-recorded :
      total id (replace_delivery e rows) ≡ total id rows + (if d.campaign_id == id then 1 else 0)
  total-recorded = ground (
    arith,
    ap (total id) replaced,
    total-middle id l.before e l.after,
    ap (total id) l.split,
    total-middle id l.before d l.after,
    uncounted id rows d h,
    counted_by_campaign,
  )

  viewers_before : viewers id rows ≡ viewers id (l.before ++ l.after)
  viewers_before =
      ap (viewers id) l.split ∙ viewers-uncounted id l.before d l.after (uncounted id rows d h)

  reach_before : reach id rows ≡ reach id (l.before ++ l.after)
  reach_before =
      ap (reach id) l.split ∙ reach-uncounted id l.before d l.after (uncounted id rows d h)

  reached_before :
      previously_reached id d.viewer_id rows
      ≡ contains (viewers id (l.before ++ l.after)) e.viewer_id
  reached_before =
      previously_reached-contains id d.viewer_id rows
      ∙ ap (λ v. contains v d.viewer_id) viewers_before
      ∙ ap (contains (viewers id (l.before ++ l.after))) (sym mine)

  pub reach-recorded :
      reach id (replace_delivery e rows)
      ≡ reach id rows
        + (if d.campaign_id == id
            then (if previously_reached id d.viewer_id rows then 0 else 1)
            else 0)
  reach-recorded = elim (Bool-cases (d.campaign_id == id)) [
    | inl ours ↦
        rw (ours, reached_before, reach_before)
          (ap (reach id) replaced
            ∙ reach-counted id l.before e l.after (counted_by_campaign ∙ ours))
    | inr other ↦
        rw (other, reach_before)
          (ap (reach id) replaced
            ∙ reach-uncounted id l.before e l.after (counted_by_campaign ∙ other)
            ∙ plus_zero _)
  ]
