-- ===== src/Paid/Candidates.antt =====
-- backend/services/paid_campaign_service.py: the candidates for a viewer, ranked and in pages. The
-- reader of the impressions and the signature of cursors are arguments.
pub mod Drawn
pub mod Walk
pub mod Parts
pub mod Distinct
pub mod Snapshot
pub mod First
use connextion_z_luna.Prelude.{
  ℕ, Bool, true, false, not, ◌&&◌, ltb, leb, ◌==◌, ◌||◌, Option, none, some, List, [], ◌∷◌, map,
  any, find, take, length, contains, if_some, if◌then◌else◌,
}
use connextion_z_luna.Errors.{Error, Result, ok, err, ◌>>=◌, ◌>>◌, raise_if}
use connextion_z_luna.Paid.Model.{PaidCampaign, User}
use connextion_z_luna.Paid.Frequency.{PaidImpressionHistoryReader}
use connextion_z_luna.Paid.Campaigns.{require_active_user}
use connextion_z_luna.Paid.Database.{Database}
use connextion_z_luna.Paid.Eligibility.{get_eligible_campaigns}
use connextion_z_luna.Paid.Delivery.{PaidCandidate}
use connextion_z_luna.Paid.Ranking.{rank_eligible}
use connextion_z_luna.Paid.Cursor.{PaidCursor, max_paid_candidates, encode, decode}

pub record PaidCandidatePage : Type 0 where
  pub items : List PaidCandidate
  pub next_cursor : Option (List ℕ)

abbrev pub candidate_of : PaidCampaign → PaidCandidate
candidate_of c = record { post_id = c.post_id; paid_campaign_id = c.id }

abbrev pub candidate : ℕ × ℕ → PaidCandidate
candidate (campaign_id, post_id) = record { post_id = post_id; paid_campaign_id = campaign_id }

abbrev pub identity : PaidCandidate → ℕ × ℕ
identity c = (c.paid_campaign_id, c.post_id)

-- The loop that keeps the first candidate of each post.
unfoldable pub unique_posts : List ℕ → List PaidCandidate → List PaidCandidate
unique_posts seen_posts [] = []
unique_posts seen_posts (c ∷ rest) =
    if contains seen_posts c.post_id
    then unique_posts seen_posts rest
    else c ∷ unique_posts (c.post_id ∷ seen_posts) rest

-- The identities after the last campaign that was shown.
unfoldable pub after : ℕ → List (ℕ × ℕ) → List (ℕ × ℕ)
after last_id [] = []
after last_id (p ∷ identities) = if p.0 == last_id then identities else after last_id identities

-- The campaign is eligible, with the post that the snapshot shows.
abbrev pub is_current : List PaidCampaign → ℕ × ℕ → Bool
is_current eligible p = if_some (find (λ c. c.id == p.0) eligible) (λ c. c.post_id == p.1)

unfoldable pub keep : (ℕ × ℕ → Bool) → List (ℕ × ℕ) → List PaidCandidate
keep test [] = []
keep test (p ∷ identities) =
    let rest = keep test identities in if test p then candidate p ∷ rest else rest

-- `page[-1].paid_campaign_id`.
abbrev pub last_of : List PaidCandidate → ℕ
last_of [] = 0
last_of (c ∷ []) = c.paid_campaign_id
last_of (c ∷ d ∷ rest) = last_of (d ∷ rest)

module _ (history : PaidImpressionHistoryReader) where
  unfoldable pub get_eligible_candidates : User → ℕ → ℕ → Database → Result (List PaidCandidate)
  unfolding get_eligible_campaigns
  get_eligible_candidates viewer now limit s = do
    campaigns ← get_eligible_campaigns history viewer now limit (λ id. true) s
    ok (map candidate_of campaigns)

  unfoldable pub get_ranked_candidates : User → ℕ → ℕ → Database → Result (List PaidCandidate)
  unfolding get_eligible_campaigns rank_eligible
  get_ranked_candidates viewer now limit s = do
    campaigns ← get_eligible_campaigns history viewer now limit (λ id. true) s
    ranked ← rank_eligible now campaigns
    ok (map candidate_of ranked)

  module _ (signature : List ℕ → List ℕ) where
    -- The slice of what remains, with the cursor for the next one.
    abbrev pub page_of : List (ℕ × ℕ) → List PaidCandidate → ℕ → ℕ → Result PaidCandidatePage
    page_of identities remaining limit viewer_id =
        let items = take limit remaining in
        let next : PaidCursor = record {
          identities = identities;
          last_campaign_id = last_of items;
        } in
        ok (record {
          items = items;
          next_cursor =
              if ltb limit (length remaining) then some (encode signature next viewer_id) else none;
        })

    -- A page of a snapshot, with every identity validated again.
    unfoldable pub continue_page : User → PaidCursor → ℕ → ℕ → Database → Result PaidCandidatePage
    unfolding get_eligible_campaigns after keep encode
    continue_page viewer snapshot limit now s = do
      campaigns ←
          get_eligible_campaigns history viewer now max_paid_candidates
            (contains (map (λ p. p.0) snapshot.identities)) s
      page_of snapshot.identities
          (keep (is_current campaigns) (after snapshot.last_campaign_id snapshot.identities)) limit
          viewer.id

    unfoldable pub first_page : User → ℕ → ℕ → Database → Result PaidCandidatePage
    unfolding get_ranked_candidates unique_posts encode
    first_page viewer limit now s = do
      ranked ← get_ranked_candidates viewer now max_paid_candidates s
      let unique = unique_posts [] ranked
      page_of (map identity unique) unique limit viewer.id

    unfoldable pub get_candidate_page :
        User → Option (List ℕ) → ℕ → ℕ → Database → Result PaidCandidatePage
    unfolding require_active_user decode continue_page first_page
    get_candidate_page viewer cursor limit now s = do
      require_active_user viewer
      raise_if (not (leb 1 limit && leb limit max_paid_candidates))
          (Error.value_error "Paid page limit must be between 1 and 100")
      elim cursor [
        | none ↦ first_page viewer limit now s
        | some text ↦
            decode signature text viewer.id
            >>= (λ snapshot. continue_page viewer snapshot limit now s)
      ]
