-- ===== src/Paid/History/Impressions.antt =====
-- A recorded impression stays as it is.
use connextion_z_luna.Prelude.{
  String, true, ◌≡◌, sym, subst, ◌==◌, some, is_some, List, [], ◌∷◌, find, arith, Bool-cases, inl,
  inr, if◌then◌else◌,
}
use connextion_z_luna.Prelude.Rows.{unique}
use connextion_z_luna.Prelude.Only.{
  IsOnly, find-IsOnly, IsOnly-find, IsOnly-snoc, IsOnly-found, IsOnly-map,
}
use connextion_z_luna.Paid.Model.{PaidDelivery}
use connextion_z_luna.Paid.Database.{Database}
use connextion_z_luna.Paid.Writes.{replace_delivery, find_selection}
use connextion_z_luna.Paid.Calls.{Event, served, elsewhere, handle, history}
use connextion_z_luna.Paid.Steps.{
  Step, stay, created, updated, selected, recorded, issued, consumed, impressed,
}
use connextion_z_luna.Paid.Steps.Calls.{serve-Step}

abbrev IsIn : PaidDelivery → Database → Type 0
IsIn d s = IsOnly (λ x. x.id) d s.deliveries

module _ (d : PaidDelivery) (seen : is_some d.impressed_at ≡ true) where
  Step-IsIn : (s t : Database) → Step s t → IsIn d s → IsIn d t
  unfolding replace_delivery find_selection
  Step-IsIn s t stay h = h
  Step-IsIn s t (created c n) h = h
  Step-IsIn s t (updated c e found u) h = h
  Step-IsIn s t (selected e fresh there unused) h =
      IsOnly-snoc (λ x. x.id) d s.deliveries e unused h
  Step-IsIn s t (recorded c e i k) h =
      IsOnly-map (λ x. x.id) d (λ x. if x.id == e.id then impressed s.now e else x) same fixed
        s.deliveries h
    where
      same : (x : PaidDelivery) → (if x.id == e.id then impressed s.now e else x).id ≡ x.id
      same x = ground arith

      clash : (d.id == e.id) ≡ true → ⊥
      clash hit =
          let same = IsOnly-found (λ x. x.id) d _ s.deliveries e h i.selected (ground arith) in
          let twice = subst (λ x. is_some x.impressed_at ≡ true) (sym same) seen in
          ground (arith, i.unimpressed)

      fixed : (if d.id == e.id then impressed s.now e else d) ≡ d
      fixed = elim (Bool-cases (d.id == e.id)) [ inl hit ↦ absurd (clash hit) | inr miss ↦ rw miss ]
  Step-IsIn s t (issued x fresh unused) h = h
  Step-IsIn s t (consumed x found fresh live) h = h

  history-IsIn :
      (digest : String → String) (events : List Event) (s : Database)
      → IsIn d s
      → IsIn d (history digest events s)
  unfolding history handle
  history-IsIn digest [] s h = h
  history-IsIn digest (served call ∷ events) s h =
      history-IsIn digest events _ (Step-IsIn s _ (serve-Step digest call s) h)
  history-IsIn digest (elsewhere users profiles posts blocks mutes now new_id ∷ events) s h =
      history-IsIn digest events _ h

-- Where deliveries have different identifiers, a delivery whose impression is recorded is found
-- unchanged, in every column, after any calls and any changes elsewhere: no impression is recorded
-- twice, moved to another time or withdrawn.
pub history-impression :
    (digest : String → String) (events : List Event) (s : Database) (d : PaidDelivery)
    → unique (λ x. x.id) s.deliveries ≡ true
    → find (λ x. x.id == d.id) s.deliveries ≡ some d
    → is_some d.impressed_at ≡ true
    → find (λ x. x.id == d.id) (history digest events s).deliveries ≡ some d
history-impression digest events s d distinct found seen =
    IsOnly-find (λ x. x.id) d (history digest events s).deliveries
      (history-IsIn d seen digest events s
        (find-IsOnly (λ x. x.id) d _ s.deliveries distinct found))
