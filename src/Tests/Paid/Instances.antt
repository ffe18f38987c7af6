-- ===== src/Tests/Paid/Instances.antt =====
-- An instance of each theorem on the paid services.
use mathlib.Core.List.{Perm}
use connextion_z_luna.Payment.Constraints.{is_upper}
use connextion_z_luna.Paid.Constraints.{campaign_constraints}
use connextion_z_luna.Paid.Ranking.{rank_eligible}
use connextion_z_luna.Paid.Ranking.Order.{rank_eligible-leads}
use connextion_z_luna.Paid.Ranking.Pace.{leads}
use connextion_z_luna.Prelude.Sorted.{IsSorted}
use connextion_z_luna.Prelude.{
  true, ◌++◌, List, length, str_len, all_chars, is_upper_ascii, false, ◌≡◌, ◌⊎◌, refl, ap, ◌==◌,
  ◌≤◌, pos, some, [], ◌∷◌, All, find,
}
use connextion_z_luna.Errors.{ok, err, is_ok}
use connextion_z_luna.Python.Uuid.Digits.{hex-all, length-hex}
use connextion_z_luna.Paid.Model.{PaidCampaignStatus, PaidCampaign}
use connextion_z_luna.Paid.Database.{viewer_count, count_paid_impressions}
use connextion_z_luna.Paid.Delivery.{record_impression, receipt}
use connextion_z_luna.Paid.Contexts.{consume}
use connextion_z_luna.Paid.Calls.{Call, serve, history}
use connextion_z_luna.Paid.Accounts.{IsAccounted}
use connextion_z_luna.Paid.Accounts.History.{history-IsAccounted}
use connextion_z_luna.Paid.Accounts.Window.{seen_in, serve-IsCapped}
use connextion_z_luna.Paid.Accounts.Available.{history-count_paid_impressions}
use connextion_z_luna.Paid.History.Contexts.{consume_once}
use connextion_z_luna.Paid.History.Impressions.{history-impression}
use connextion_z_luna.Paid.History.Lifecycle.{history-IsFinal}
use connextion_z_luna.Paid.History.Evolution.{EvolvesTo, history-EvolvesTo}
use connextion_z_luna.Paid.Replay.{record_impression-again}
use connextion_z_luna.Paid.Cursor.{PaidCursor, invalid, is_snapshot, encode, decode}
use connextion_z_luna.Paid.Cursor.RoundTrip.{IsCursor, decode-encode}
use connextion_z_luna.Paid.Candidates.{after}
use connextion_z_luna.Paid.Candidates.Drawn.{IsDrawn}
use connextion_z_luna.Paid.Candidates.Walk.{Visit, follow, walk, walk-IsDrawn}
use connextion_z_luna.Prelude.Rows.{unique}
use connextion_z_luna.Paid.Candidates.First.{first_walk-unique}
use connextion_z_luna.Tests.Paid.Pages.{rival, rival_tables, signature, page, page_returns}
use connextion_z_luna.Tests.Paid.{
  time, viewer, before, events, campaign, impression, counted_campaign, selected_tables,
  impressed_tables, issued_tables, digest, campaign_after, consume_returns, impression_returns,
}

history-IsAccounted_example :
    All
      (IsAccounted (history digest events before).deliveries)
      (history digest events before).campaigns
history-IsAccounted_example = history-IsAccounted digest events before refl refl

serve-IsCapped_example :
    (seen_in 3600 campaign 20 selected_tables
        (serve digest (Call.recording viewer 2) selected_tables).deliveries
      ≤ 2)
    ⊎ (seen_in 3600 campaign 20 selected_tables
          (serve digest (Call.recording viewer 2) selected_tables).deliveries
        ≤ seen_in 3600 campaign 20 selected_tables selected_tables.deliveries)
serve-IsCapped_example =
    serve-IsCapped selected_tables campaign 2 3600 20 refl refl refl refl digest
      (Call.recording viewer 2)

history-count_paid_impressions_example :
    count_paid_impressions 20 1 0 time (history digest events before)
    ≡ ok (pos (viewer_count 20 1 0 time (history digest events before).deliveries))
history-count_paid_impressions_example =
    history-count_paid_impressions digest events before 20 1 0 time counted_campaign refl refl
      (ap (find (λ c. c.id == 1)) campaign_after) refl

consume_once_example :
    is_ok
      (consume digest "other" 20 5 2
        (history digest events (consume digest "token" 20 5 2 issued_tables).1)).0
    ≡ false
consume_once_example =
    consume_once digest "token" 20 5 2 issued_tables events "other" 20 5 consume_returns

history-impression_example :
    find (λ d. d.id == 2) (history digest events impressed_tables).deliveries ≡ some impression
history-impression_example =
    history-impression digest events impressed_tables impression refl refl refl

abbrev ended_campaign : PaidCampaign
ended_campaign = record counted_campaign { status = PaidCampaignStatus.cancelled }

history-IsFinal_example :
    find
      (λ c. c.id == 1)
      (history digest events
        (record impressed_tables { campaigns = ended_campaign ∷ [] })).campaigns
    ≡ some ended_campaign
history-IsFinal_example =
    history-IsFinal digest events (record impressed_tables { campaigns = ended_campaign ∷ [] })
      ended_campaign refl refl refl

history-EvolvesTo_example :
    (d : PaidCampaign) × (find (λ c. c.id == 1) (history digest events selected_tables).campaigns
      ≡ some d)
    × EvolvesTo campaign d
history-EvolvesTo_example = history-EvolvesTo digest events selected_tables campaign refl refl

record_impression-again_example :
    record_impression viewer 2 impressed_tables ≡ (ok (receipt impression), impressed_tables)
record_impression-again_example =
    record_impression-again viewer 2 selected_tables impressed_tables (receipt impression) refl
      impression_returns

abbrev cursor : PaidCursor
cursor = record { identities = (1, 5) ∷ (2, 6) ∷ (3, 7) ∷ []; last_campaign_id = 1 }

cursor-IsCursor : IsCursor cursor
unfolding is_snapshot
cursor-IsCursor = record { snapshot = refl; campaigns = refl; posts = refl }

decode-encode_example : decode signature (encode signature cursor 20) 21 ≡ err invalid
decode-encode_example =
    decode-encode signature (λ body. hex-all 64 (length body)) (λ body. length-hex 64 (length body))
      cursor 20 21 cursor-IsCursor refl

abbrev visits : List Visit
visits =
    record { limit = 1; now = time; tables = impressed_tables }
    ∷ record { limit = 5; now = time; tables = before }
    ∷ []

walk-IsDrawn_example :
    IsDrawn
      (walk count_paid_impressions signature viewer visits (encode signature cursor viewer.id))
      ((2, 6) ∷ (3, 7) ∷ [])
unfolding after
walk-IsDrawn_example =
    walk-IsDrawn count_paid_impressions signature (λ body. hex-all 64 (length body))
      (λ body. length-hex 64 (length body)) viewer refl visits cursor cursor-IsCursor

rank_eligible-leads_example :
    (ranked : List PaidCampaign) × (rank_eligible time (rival ∷ campaign ∷ []) ≡ ok ranked)
    × Perm ranked (rival ∷ campaign ∷ [])
    × IsSorted (leads time) ranked
unfolding campaign_constraints is_upper is_upper_ascii str_len all_chars
rank_eligible-leads_example = rank_eligible-leads time (rival ∷ campaign ∷ []) (refl, (refl, tt))

first_walk-unique_example :
    (unique
        (λ c. c.post_id)
        (page.items
          ++ follow
              (λ next_one. walk count_paid_impressions signature viewer visits next_one)
              page.next_cursor)
      ≡ true)
    × (unique
          (λ c. c.paid_campaign_id)
          (page.items
            ++ follow
                (λ next_one. walk count_paid_impressions signature viewer visits next_one)
                page.next_cursor)
        ≡ true)
first_walk-unique_example =
    first_walk-unique count_paid_impressions signature viewer (λ body. hex-all 64 (length body))
      (λ body. length-hex 64 (length body)) refl rival_tables refl refl 1 time page visits
      page_returns
