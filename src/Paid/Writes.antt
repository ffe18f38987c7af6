-- ===== src/Paid/Writes.antt =====
-- backend/repositories/paid_delivery_repository.py, and the flushes of the paid services. A row lock
-- makes the calls on one campaign follow one another.
use connextion_z_luna.Prelude.{
  ℕ, Bool, false, not, ◌&&◌, ◌||◌, ltb, leb, ◌==◌, ◌+◌, Option, none, some, is_some, List, [], ◌∷◌,
  ◌++◌, map, all, any, find, filter, sorted_by, if◌then◌else◌,
}
use connextion_z_luna.Errors.{Error, Result, ok, err}
use connextion_z_luna.Exec.{Exec, gets, ◌>>=◌, ◌>>◌}
use connextion_z_luna.Paid.Model.{PaidCampaign, PaidDelivery}
use connextion_z_luna.Paid.Constraints.{campaign_constraints, delivery_constraints}
use connextion_z_luna.Paid.Database.{Database, is_impression}

-- `async with db.begin_nested()`: a raise goes back to the savepoint.
abbrev pub restore : {A : Type 0} → Database → Result A × Database → Result A × Database
restore s (ok value, after) = (ok value, after)
restore s (err error, after) = (err error, s)

unfoldable pub begin_nested : {A : Type 0} → Exec Database A → Exec Database A
begin_nested m s = restore s (m s)

unfoldable pub require_postgresql : Exec Database (Unit {0})
require_postgresql s = if s.is_postgresql then (ok tt, s) else (err Error.not_implemented_error, s)

-- `scalar_one_or_none`, where no row is an error.
abbrev pub required : {A : Type 0} → Error → Option A → Exec Database A
required error none s = (err error, s)
required error (some row) s = (ok row, s)

unfoldable pub lock_campaign : ℕ → Exec Database PaidCampaign
unfolding require_postgresql
lock_campaign campaign_id = do
  require_postgresql
  found ← gets (λ s. find (λ c. c.id == campaign_id) s.campaigns)
  required (Error.value_error "Paid campaign not found") found

unfoldable pub find_selection : ℕ → ℕ → List PaidDelivery → Option PaidDelivery
find_selection delivery_id viewer_id = find (λ d. d.id == delivery_id && d.viewer_id == viewer_id)

unfoldable pub get_selection : ℕ → ℕ → Exec Database PaidDelivery
unfolding find_selection
get_selection delivery_id viewer_id s =
    required (Error.value_error "Paid delivery selection not found")
      (find_selection delivery_id viewer_id s.deliveries) s

abbrev is_later_at : Option ℕ → Option ℕ → Bool → Bool
is_later_at (some a) (some b) tie = ltb b a || (a == b && tie)
is_later_at _ _ tie = false

-- `ORDER BY impressed_at DESC, id DESC`, among rows that were impressed.
abbrev is_later : PaidDelivery → PaidDelivery → Bool
is_later d e = is_later_at d.impressed_at e.impressed_at (ltb e.id d.id)

abbrev first : List PaidDelivery → Option PaidDelivery
first [] = none
first (d ∷ rest) = some d

-- What the query has selected passes the checks on it.
unfoldable pub latest_impressed_for_engagement : ℕ → ℕ → Database → Option PaidDelivery
unfolding sorted_by
latest_impressed_for_engagement viewer_id post_id s = first (
    sorted_by is_later (
      filter (λ d. d.viewer_id == viewer_id && d.post_id == post_id && is_some d.impressed_at)
        s.deliveries))

unfoldable pub impressed_for_engagement : ℕ → ℕ → ℕ → Exec Database PaidDelivery
impressed_for_engagement delivery_id viewer_id post_id s =
    required (Error.value_error "Paid engagement delivery provenance is invalid")
      (find
        (λ d.
          d.id == delivery_id
          && d.viewer_id == viewer_id
          && d.post_id == post_id
          && is_some d.impressed_at)
        s.deliveries)
      s

-- The INSERT of a campaign, with a new identifier and the time: its owner and its post exist.
unfoldable pub insert_campaign : PaidCampaign → Exec Database PaidCampaign
insert_campaign c s =
    let row = record c { id = s.new_id; created_at = s.now } in
    if campaign_constraints row
      && any (λ u. u.id == c.owner_id) s.users
      && any (λ p. p.id == c.post_id) s.posts
      && not (any (λ d. d.id == s.new_id) s.campaigns)
    then (ok row, record s { campaigns = s.campaigns ++ row ∷ []; new_id = s.new_id + 1 })
    else (err Error.integrity_error, s)

unfoldable pub replace_campaign : PaidCampaign → List PaidCampaign → List PaidCampaign
replace_campaign c rows = map (λ d. if d.id == c.id then c else d) rows

-- The UPDATE of a campaign's row.
unfoldable pub update_campaign_row : PaidCampaign → Exec Database PaidCampaign
unfolding replace_campaign
update_campaign_row c s =
    if campaign_constraints c
    then (ok c, record s { campaigns = replace_campaign c s.campaigns })
    else (err Error.integrity_error, s)

-- The row is sound, its campaign and its post exist, and its identifier is new.
unfoldable pub is_insertable : PaidDelivery → Database → Bool
is_insertable d s =
    delivery_constraints d
    && any (λ c. c.id == d.campaign_id) s.campaigns
    && any (λ p. p.id == d.post_id) s.posts
    && not (any (λ e. e.id == d.id) s.deliveries)

unfoldable pub insert_delivery : PaidDelivery → Exec Database PaidDelivery
unfolding is_insertable
insert_delivery d s =
    let row = record d { id = s.new_id } in
    if is_insertable row s
    then (ok row, record s { deliveries = s.deliveries ++ row ∷ []; new_id = s.new_id + 1 })
    else (err Error.integrity_error, s)

unfoldable pub replace_delivery : PaidDelivery → List PaidDelivery → List PaidDelivery
replace_delivery d rows = map (λ e. if e.id == d.id then d else e) rows

unfoldable pub update_delivery : PaidDelivery → Exec Database PaidDelivery
unfolding replace_delivery
update_delivery d s =
    if delivery_constraints d
    then (ok d, record s { deliveries = replace_delivery d s.deliveries })
    else (err Error.integrity_error, s)

unfoldable pub create_selection : PaidCampaign → ℕ → ℕ → Exec Database PaidDelivery
unfolding insert_delivery
create_selection campaign viewer_id now = insert_delivery (record {
  id = 0;
  campaign_id = campaign.id;
  viewer_id = viewer_id;
  post_id = campaign.post_id;
  selected_at = now;
  impressed_at = none;
})

unfoldable pub previously_reached : ℕ → ℕ → List PaidDelivery → Bool
unfolding is_impression
previously_reached campaign_id viewer_id =
    any (λ d. is_impression campaign_id d && d.viewer_id == viewer_id)

-- The counters of the row with one impression more.
unfoldable pub counted : Bool → PaidCampaign → PaidCampaign
counted reached c = record c {
  impressions_delivered = c.impressions_delivered + 1;
  reach_delivered = c.reach_delivered + (if reached then 0 else 1);
}

-- The largest number of a column of 32 bits.
abbrev pub max_integer : ℕ
max_integer = 2147483647

-- The counters fit their columns.
unfoldable pub fits_columns : PaidCampaign → Bool
fits_columns c = leb c.impressions_delivered max_integer && leb c.reach_delivered max_integer

-- The UPDATE that adds to the counters as they are in the row.
unfoldable pub count_impression : ℕ → Bool → Exec Database (Unit {0})
unfolding counted fits_columns
count_impression campaign_id reached s =
    if not (all (λ c. not (c.id == campaign_id) || fits_columns (counted reached c)) s.campaigns)
    then (err Error.data_error, s)
    else if all (λ c. not (c.id == campaign_id) || campaign_constraints (counted reached c))
        s.campaigns
    then (
      ok tt,
      record s {
        campaigns = map (λ c. if c.id == campaign_id then counted reached c else c) s.campaigns;
      },
    )
    else (err Error.integrity_error, s)

unfoldable pub record_locked : PaidCampaign → PaidDelivery → ℕ → Exec Database PaidDelivery
unfolding previously_reached count_impression update_delivery
record_locked campaign selection now = do
  reached ← gets (λ s. previously_reached campaign.id selection.viewer_id s.deliveries)
  count_impression campaign.id reached
  update_delivery (record selection { impressed_at = some now })
