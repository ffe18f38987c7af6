-- ===== src/Paid/Replay.antt =====
-- Recording an impression again.
use connextion_z_luna.Prelude.{
  ℕ, Bool, true, false, ◌≡◌, refl, sym, ap, subst, ◌∙◌, not, ◌==◌, Option, some, is_some,
  not-eq-false, List, [], ◌∷◌, map, find, arith, Bool-cases, inl, inr, if◌then◌else◌,
}
use connextion_z_luna.Prelude.Rows.{unique}
use connextion_z_luna.Prelude.Only.{IsOnly, find-IsOnly, IsOnly-changed, IsOnly-find_by}
use connextion_z_luna.Errors.{Error, Result, ok}
use connextion_z_luna.Exec.{Exec, gets, continue, ◌>>=◌}
use connextion_z_luna.Exec.Returns.{pass}
use connextion_z_luna.Exec.Ends.{
  Ends, Ends-bind, Ends-lift, Ends-gets, Ends-guard, Ends-if, returns,
}
use connextion_z_luna.Paid.Model.{PaidCampaign, PaidDelivery, User}
use connextion_z_luna.Paid.Campaigns.{require_active_user}
use connextion_z_luna.Paid.Database.{Database, get_user}
use connextion_z_luna.Paid.Writes.{
  begin_nested, restore, require_postgresql, required, lock_campaign, find_selection, get_selection,
  counted, replace_delivery, count_impression, record_locked,
}
use connextion_z_luna.Paid.Rules.{
  Ends-required, Ends-found, Ends-nested, Ends-postgresql, Ends-selection, find-passes, some_eq,
}
use connextion_z_luna.Paid.Steps.{impressed, reached_by, count_up}
use connextion_z_luna.Paid.Steps.Delivery.{counted-Ends, updated-Ends, validate-Ends}
use connextion_z_luna.Paid.Delivery.{
  PaidImpressionReceipt, receipt, stored_viewer, validate, impress, record_selection,
  record_impression,
}

bind-ok :
    {A B : Type 0} (m : Exec Database A) (f : A → Exec Database B) (s t : Database) (a : A)
    → m s ≡ (ok a, t)
    → (m >>= f) s ≡ f a t
unfolding ◌>>=◌
bind-ok {B = B} m f s t a h = ap (λ (r : Result _ × Database). continue {B = B} r.0 f r.1) h

nested-ok :
    {A : Type 0} (m : Exec Database A) (s t : Database) (a : A)
    → m s ≡ (ok a, t)
    → begin_nested m s ≡ (ok a, t)
unfolding begin_nested
nested-ok m s t a h = ap (restore s) h

required-ok :
    {A : Type 0} (e : Error) (found : Option A) (a : A) (s : Database)
    → found ≡ some a
    → required e found s ≡ (ok a, s)
required-ok e found a s h = rw h

postgresql-ok : (s : Database) → s.is_postgresql ≡ true → require_postgresql s ≡ (ok tt, s)
unfolding require_postgresql
postgresql-ok s h = ground arith

lock_campaign-ok :
    (id : ℕ) (s : Database) (c : PaidCampaign)
    → s.is_postgresql ≡ true
    → find (λ x. x.id == id) s.campaigns ≡ some c
    → lock_campaign id s ≡ (ok c, s)
unfolding lock_campaign ◌>>=◌
lock_campaign-ok id s c p h =
    bind-ok require_postgresql _ s s tt (postgresql-ok s p) ∙ required-ok _ _ c s h

get_selection-ok :
    (delivery_id viewer_id : ℕ) (s : Database) (d : PaidDelivery)
    → find_selection delivery_id viewer_id s.deliveries ≡ some d
    → get_selection delivery_id viewer_id s ≡ (ok d, s)
unfolding get_selection
get_selection-ok delivery_id viewer_id s d h = required-ok _ _ d s h

stored_viewer-ok :
    (viewer stored : User) (s : Database)
    → get_user viewer.id s ≡ some stored
    → require_active_user stored ≡ ok tt
    → stored_viewer viewer s ≡ (ok stored, s)
unfolding stored_viewer
stored_viewer-ok viewer stored s h a =
    bind-ok (gets (get_user viewer.id)) _ s s _ refl
    ∙ bind-ok _ _ s s stored (required-ok _ _ stored s h)
    ∙ bind-ok _ _ s s tt (ap (λ r. (r, s)) a)

module _ (viewer : User) (delivery_id : ℕ) where
  -- What makes a call answer with the receipt of an impression that is recorded already.
  record IsRecorded (s : Database) (d : PaidDelivery) : Type 0 where
    campaign : PaidCampaign
    stored : User
    postgresql : s.is_postgresql ≡ true
    selected : find_selection delivery_id viewer.id s.deliveries ≡ some d
    locked : find (λ x. x.id == d.campaign_id) s.campaigns ≡ some campaign
    promoted : (d.post_id == campaign.post_id) ≡ true
    known : get_user viewer.id s ≡ some stored
    is_active : require_active_user stored ≡ ok tt
    seen : is_some d.impressed_at ≡ true

  chosen :
      {A : Type 0} (b : Bool) (m n : Exec Database A) (s : Database)
      → b ≡ true
      → (if b then m else n) s ≡ m s
  chosen true m n s h = refl
  chosen false m n s h = absurd cc

  answers :
      (s : Database) (d : PaidDelivery)
      → IsRecorded s d
      → record_impression viewer delivery_id s ≡ (ok (receipt d), s)
  unfolding record_impression record_selection
  answers s d r =
      bind-ok require_postgresql _ s s tt (postgresql-ok s r.postgresql)
      ∙ nested-ok (record_selection viewer delivery_id) s s (receipt d) (
          bind-ok (get_selection delivery_id viewer.id) _ s s d
            (get_selection-ok delivery_id viewer.id s d r.selected)
          ∙ bind-ok (lock_campaign d.campaign_id) _ s s r.campaign
              (lock_campaign-ok d.campaign_id s r.campaign r.postgresql r.locked)
          ∙ bind-ok (get_selection delivery_id viewer.id) _ s s d
              (get_selection-ok delivery_id viewer.id s d r.selected)
          ∙ pass (not (d.post_id == r.campaign.post_id)) _ _ s (rw r.promoted)
          ∙ bind-ok (stored_viewer viewer) _ s s r.stored
              (stored_viewer-ok viewer r.stored s r.known r.is_active)
          ∙ chosen (is_some d.impressed_at) _ _ s r.seen)

find-mapped :
    (f : PaidCampaign → PaidCampaign) (same : (x : PaidCampaign) → (f x).id ≡ x.id) (k : ℕ)
    (rows : List PaidCampaign) (c : PaidCampaign)
    → find (λ x. x.id == k) rows ≡ some c
    → find (λ x. x.id == k) (map f rows) ≡ some (f c)
find-mapped f same k [] c h = absurd cc
find-mapped f same k (x ∷ rows) c h = elim (Bool-cases (x.id == k)) [
  | inl hit ↦ rw (ap (λ i. i == k) (same x) ∙ hit) (ap (λ y. some (f y)) (some_eq (rw hit at h)))
  | inr miss ↦ rw (ap (λ i. i == k) (same x) ∙ miss) (find-mapped f same k rows c (rw miss at h))
]

module _ {Post : PaidCampaign → Database → Type 0} where
  lock-Ends :
      (id : ℕ) (s : Database)
      → ((c : PaidCampaign) → find (λ x. x.id == id) s.campaigns ≡ some c → Post c s)
      → Ends Post (lock_campaign id s)
  unfolding lock_campaign
  lock-Ends id s h =
      Ends-postgresql _ s λ p. Ends-gets _ _ s (Ends-found _ _ s λ c found. h c found)

module _ {Post : User → Database → Type 0} where
  viewer-Ends :
      (viewer : User) (s : Database)
      → ((stored : User)
          → get_user viewer.id s ≡ some stored
          → require_active_user stored ≡ ok tt
          → Post stored s)
      → Ends Post (stored_viewer viewer s)
  unfolding stored_viewer
  viewer-Ends viewer s h = Ends-gets _ _ s (
      Ends-required _ _ _ s
        λ stored found. Ends-lift _ _ s λ u active. returns stored s (h stored found active))

module _ (viewer : User) (delivery_id : ℕ) (s : Database) (d : PaidDelivery) (c : PaidCampaign)
    (distinct : unique (λ x. x.id) s.deliveries ≡ true)
    (found : find_selection delivery_id viewer.id s.deliveries ≡ some d) where
  selected_after :
      find_selection delivery_id viewer.id (replace_delivery (impressed s.now d) s.deliveries)
      ≡ some (impressed s.now d)
  unfolding find_selection replace_delivery
  selected_after =
      let hit = find-passes _ s.deliveries d found in
      IsOnly-find_by (λ x. x.id) (impressed s.now d) _ _ hit (λ x passes. ground arith)
        (subst (λ a. IsOnly (λ x. x.id) a (map f s.deliveries)) itself
          (IsOnly-changed (λ x. x.id) d f same s.deliveries
            (find-IsOnly (λ x. x.id) d _ s.deliveries distinct found)))
    where
      f : PaidDelivery → PaidDelivery
      f x = if x.id == d.id then impressed s.now d else x

      same : (x : PaidDelivery) → (if x.id == d.id then impressed s.now d else x).id ≡ x.id
      same x = ground arith

      itself : (if d.id == d.id then impressed s.now d else d) ≡ impressed s.now d
      itself = ground arith

-- A receipt of an impression that is recorded.
abbrev Receipt : User → ℕ → PaidImpressionReceipt → Database → Type 0
Receipt viewer delivery_id r t =
    (d : PaidDelivery) × IsRecorded viewer delivery_id t d × (r ≡ receipt d)

module _ (viewer : User) (delivery_id : ℕ) (s : Database) (d : PaidDelivery) (c : PaidCampaign)
    (stored : User) (distinct : unique (λ x. x.id) s.deliveries ≡ true)
    (found : find_selection delivery_id viewer.id s.deliveries ≡ some d)
    (postgresql : s.is_postgresql ≡ true)
    (locked : find (λ x. x.id == d.campaign_id) s.campaigns ≡ some c)
    (promoted : (d.post_id == c.post_id) ≡ true) (known : get_user viewer.id s ≡ some stored)
    (active_user : require_active_user stored ≡ ok tt) where
  impress-Receipt : Ends (Receipt viewer delivery_id) (impress c stored d s)
  unfolding impress record_locked counted get_user
  impress-Receipt =
      Ends-gets (λ t. t.now) _ s
        (Ends-bind (validate c stored s.now) _ s (
          validate-Ends c stored s.now s λ shown evaluated.
            Ends-bind (record_locked c d s.now) _ s (
              Ends-gets _ _ s (
                Ends-bind (count_impression c.id (reached_by c d s)) _ s (
                  counted-Ends c.id (reached_by c d s) s λ constrained.
                    updated-Ends (impressed s.now d) _
                      (returns _ _ (impressed s.now d, recorded_after, refl)))))))
    where
      f : PaidCampaign → PaidCampaign
      f x = if x.id == c.id then counted (reached_by c d s) x else x

      same_id :
          (x : PaidCampaign) → (if x.id == c.id then counted (reached_by c d s) x else x).id ≡ x.id
      same_id x = ground arith

      same_post : (f c).post_id ≡ c.post_id
      same_post = ground arith

      recorded_after :
          IsRecorded viewer delivery_id
            (record s {
              campaigns = count_up (reached_by c d s) c.id s.campaigns;
              deliveries = replace_delivery (impressed s.now d) s.deliveries;
            })
            (impressed s.now d)
      recorded_after = record {
        campaign = f c;
        stored = stored;
        postgresql = postgresql;
        selected = selected_after viewer delivery_id s d c distinct found;
        locked = find-mapped f same_id d.campaign_id s.campaigns c locked;
        promoted = ap (λ p. d.post_id == p) same_post ∙ promoted;
        known = known;
        is_active = active_user;
        seen = refl;
      }

record_impression-Receipt :
    (viewer : User) (delivery_id : ℕ) (s : Database)
    → unique (λ x. x.id) s.deliveries ≡ true
    → Ends (Receipt viewer delivery_id) (record_impression viewer delivery_id s)
unfolding record_impression record_selection
record_impression-Receipt viewer delivery_id s distinct = Ends-postgresql _ s λ p.
    Ends-nested (record_selection viewer delivery_id) s (
      Ends-selection delivery_id viewer.id _ s λ earlier seen.
        Ends-bind (lock_campaign earlier.campaign_id) _ s (
          lock-Ends earlier.campaign_id s λ c locked.
            Ends-selection delivery_id viewer.id _ s λ d found. Ends-guard _ _ _ s λ promoted.
              Ends-bind (stored_viewer viewer) _ s (
                viewer-Ends viewer s λ stored known active_user.
                  let own =
                    subst (λ x. find (λ y. y.id == x.campaign_id) s.campaigns ≡ some c)
                      (some_eq (sym seen ∙ found)) locked in
                  let same = not-eq-false (d.post_id == c.post_id) promoted in
                  Ends-if (is_some d.impressed_at) _ _ s
                    (λ counted_before. returns (receipt d) s (
                      d,
                      record {
                        campaign = c;
                        stored = stored;
                        postgresql = p;
                        selected = found;
                        locked = own;
                        promoted = same;
                        known = known;
                        is_active = active_user;
                        seen = counted_before;
                      },
                      refl,
                    ))
                    (λ fresh.
                      impress-Receipt viewer delivery_id s d c stored distinct found p own same
                        known active_user))))

-- Recording an impression is idempotent: where deliveries have different identifiers, when a call has
-- returned a receipt, the same call again returns the same receipt and changes nothing.
pub record_impression-again :
    (viewer : User) (delivery_id : ℕ) (s t : Database) (r : PaidImpressionReceipt)
    → unique (λ x. x.id) s.deliveries ≡ true
    → record_impression viewer delivery_id s ≡ (ok r, t)
    → record_impression viewer delivery_id t ≡ (ok r, t)
record_impression-again viewer delivery_id s t r distinct returned =
    let ends =
      subst (λ x. Ends (Receipt viewer delivery_id) x) returned
        (record_impression-Receipt viewer delivery_id s distinct) in
    let (d, recorded, same) = ends.at in
    answers viewer delivery_id t d recorded ∙ ap (λ x. (ok x, t)) (sym same)
