-- ===== src/Paid/Candidates/Walk.antt =====
-- A viewer who follows the cursors of a snapshot, page by page.
use mathlib.Core.List.{append-nil}
use connextion_z_luna.Prelude.{
  ℕ, zero, suc, Bool, true, false, ◌≡◌, refl, sym, subst, ◌∙◌, not, ◌&&◌, ltb, leb, ◌==◌, Option,
  none, some, List, [], ◌∷◌, ◌++◌, map, all, take, length, contains, arith, Bool-cases, inl, inr,
  if◌then◌else◌,
}
use connextion_z_luna.Prelude.Rows.{unique}
use connextion_z_luna.Errors.{Result, ok, err}
use connextion_z_luna.Exec.Returns.{ok_injective}
use connextion_z_luna.Python.Uuid.Digits.{is_hex}
use connextion_z_luna.Paid.Model.{PaidCampaign, User}
use connextion_z_luna.Paid.Frequency.{PaidImpressionHistoryReader}
use connextion_z_luna.Paid.Database.{Database}
use connextion_z_luna.Paid.Eligibility.{get_eligible_campaigns}
use connextion_z_luna.Paid.Delivery.{PaidCandidate}
use connextion_z_luna.Paid.Rules.{>>=-ok, guard-ok}
use connextion_z_luna.Paid.Cursor.{PaidCursor, max_paid_candidates, is_snapshot, encode, decode}
use connextion_z_luna.Paid.Cursor.RoundTrip.{IsCursor, is_uuid, decode-encode}
use connextion_z_luna.Paid.Candidates.{
  PaidCandidatePage, after, is_current, keep, last_of, get_candidate_page, continue_page, page_of,
}
use connextion_z_luna.Paid.Candidates.Drawn.{
  IsDrawn, done, holds, keep-IsDrawn, last_of-keep, IsDrawn-append, holds-after, unique-after,
  after-after, unique_of_count,
}

-- What a request for a page meets: its limit, the time and the tables.
pub record Visit : Type 0 where
  pub limit : ℕ
  pub now : ℕ
  pub tables : Database

-- The rest of the pages, if there is a cursor for them.
abbrev pub follow : (List ℕ → List PaidCandidate) → Option (List ℕ) → List PaidCandidate
follow rest none = []
follow rest (some next_one) = rest next_one

module _ (history : PaidImpressionHistoryReader) (signature : List ℕ → List ℕ) (viewer : User) where
  -- What a viewer is shown who asks for page after page, each with the cursor of the one before, and
  -- again with the same cursor after an error.
  unfoldable pub walk : List Visit → List ℕ → List PaidCandidate
  unfolding get_candidate_page
  walk [] cursor = []
  walk (v ∷ visits) cursor =
      elim (get_candidate_page history signature viewer (some cursor) v.limit v.now v.tables) [
        | err e ↦ walk visits cursor
        | ok page ↦ page.items ++ follow (λ next_one. walk visits next_one) page.next_cursor
      ]

pub in_bounds : (a b : Bool) → not (a && b) ≡ false → a ≡ true
in_bounds a b h = ground arith

identities-unique : (c : PaidCursor) → IsCursor c → unique (λ q. q.0) c.identities ≡ true
unfolding is_snapshot
identities-unique c valid =
    unique_of_count c.identities (
      distinct (leb 1 (length c.identities)) (leb (length c.identities) 100) _ _ _ _ valid.snapshot)
  where
    distinct : (a b : Bool) (n m : ℕ) (d e : Bool) → (a && b && n == m && d && e) ≡ true → n ≡ m
    distinct a b n m d e h = ground arith

-- The same snapshot, with another of its campaigns as the last one.
moved-IsCursor :
    (c : PaidCursor) (id : ℕ)
    → IsCursor c
    → holds id c.identities ≡ true
    → IsCursor (record { identities = c.identities; last_campaign_id = id })
unfolding is_snapshot
moved-IsCursor c id valid h = record {
  snapshot = moved (leb 1 (length c.identities)) _ _ _ _ _ valid.snapshot h;
  campaigns = valid.campaigns;
  posts = valid.posts;
}
  where
    moved :
        (a b d e f g : Bool)
        → (a && b && d && e && f) ≡ true
        → g ≡ true
        → (a && b && d && e && g) ≡ true
    moved a b d e f g h k = ground arith

module _ (history : PaidImpressionHistoryReader) (signature : List ℕ → List ℕ)
    (is_hex_digest : (body : List ℕ) → all is_hex (signature body) ≡ true)
    (digest_length : (body : List ℕ) → length (signature body) ≡ 64) (viewer : User)
    (known : is_uuid viewer.id ≡ true) where
  abbrev remaining : PaidCursor → List PaidCampaign → List PaidCandidate
  remaining c campaigns = keep (is_current campaigns) (after c.last_campaign_id c.identities)

  abbrev moved : PaidCursor → List PaidCandidate → PaidCursor
  moved c items = record { identities = c.identities; last_campaign_id = last_of items }

  abbrev next_page : PaidCursor → List PaidCandidate → ℕ → PaidCandidatePage
  next_page c rest limit = record {
    items = take limit rest;
    next_cursor =
        if ltb limit (length rest)
        then some (encode signature (moved c (take limit rest)) viewer.id)
        else none;
  }

  decode-own :
      (c : PaidCursor)
      → IsCursor c
      → decode signature (encode signature c viewer.id) viewer.id ≡ ok c
  decode-own c valid =
      decode-encode signature is_hex_digest digest_length c viewer.id viewer.id valid known
      ∙ mine _ (viewer.id == viewer.id) (ground arith)
    where
      mine : (r : Result PaidCursor) (b : Bool) → b ≡ true → (if b then ok c else r) ≡ ok c
      mine r true h = refl
      mine r false h = absurd cc

  page-continued :
      (c : PaidCursor) (limit now : ℕ) (s : Database) (page : PaidCandidatePage)
      → continue_page history signature viewer c limit now s ≡ ok page
      → (campaigns : List PaidCampaign) × (next_page c (remaining c campaigns) limit ≡ page)
  unfolding continue_page
  page-continued c limit now s page h =
      let (campaigns, eligible, paged) =
        >>=-ok
          (get_eligible_campaigns history viewer now max_paid_candidates
            (contains (map (λ p. p.0) c.identities)) s)
          (λ campaigns.
            page_of history signature c.identities (remaining c campaigns) limit viewer.id)
          page h in
      (campaigns, ok_injective paged)

  -- A page that is returned for a cursor of the viewer.
  page-returned :
      (c : PaidCursor) (v : Visit) (page : PaidCandidatePage)
      → IsCursor c
      → get_candidate_page history signature viewer
          (some (encode signature c viewer.id))
          v.limit
          v.now
          v.tables
        ≡ ok page
      → (leb 1 v.limit ≡ true)
        × (campaigns : List PaidCampaign) × (next_page c (remaining c campaigns) v.limit ≡ page)
  unfolding get_candidate_page
  page-returned c v page valid h =
      let (is_active, limited) = guard-ok _ _ _ page h in
      let (in_range, decoded) = guard-ok _ _ _ page limited in
      let (snapshot, found, continued) = >>=-ok _ _ page decoded in
      let (campaigns, paged) = page-continued c v.limit v.now v.tables page (
        subst (λ d. continue_page history signature viewer d v.limit v.now v.tables ≡ ok page)
          (ok_injective (sym found ∙ decode-own c valid)) continued) in
      (in_bounds (leb 1 v.limit) (leb v.limit 100) in_range, campaigns, paged)

  -- Whatever the rest of the walk draws after this page.
  page-IsDrawn :
      (c : PaidCursor) (limit : ℕ) (campaigns : List PaidCampaign)
      (rest : List ℕ → List PaidCandidate)
      → IsCursor c
      → leb 1 limit ≡ true
      → ((d : PaidCursor)
          → IsCursor d
          → IsDrawn (rest (encode signature d viewer.id)) (after d.last_campaign_id d.identities))
      → IsDrawn
          ((next_page c (remaining c campaigns) limit).items
            ++ follow rest (next_page c (remaining c campaigns) limit).next_cursor)
          (after c.last_campaign_id c.identities)
  page-IsDrawn c zero campaigns rest valid h again = absurd cc
  page-IsDrawn c (suc n) campaigns rest valid h again =
      elim (Bool-cases (ltb (suc n) (length (remaining c campaigns)))) [
        | inl more ↦
            rw more (IsDrawn-append test left n _ left-unique (room more) (next_drawn more))
        | inr end ↦ rw end (
            subst (λ shown. IsDrawn shown left) (sym (append-nil items))
              (keep-IsDrawn test left (suc n)))
      ]
    where
      test : ℕ × ℕ → Bool
      test = is_current campaigns

      left : List (ℕ × ℕ)
      left = after c.last_campaign_id c.identities

      items : List PaidCandidate
      items = take (suc n) (keep test left)

      left-unique : unique (λ q. q.0) left ≡ true
      left-unique = unique-after c.last_campaign_id c.identities (identities-unique c valid)

      room : ltb (suc n) (length (keep test left)) ≡ true → ltb n (length (keep test left)) ≡ true
      room more = ground arith

      next_drawn :
          ltb (suc n) (length (keep test left)) ≡ true
          → IsDrawn (rest (encode signature (moved c items) viewer.id)) (after (last_of items) left)
      next_drawn more =
          let there = last_of-keep test left n (room more) in
          subst (IsDrawn (rest (encode signature (moved c items) viewer.id)))
            (after-after (last_of items) c.last_campaign_id c.identities (identities-unique c valid)
              there)
            (again (moved c items) (
              moved-IsCursor c (last_of items) valid
                (holds-after (last_of items) c.last_campaign_id c.identities there)))

  -- Where the signature is 64 digits in base 16, a viewer with a cursor of a snapshot who asks for page
  -- after page, with any limits, whatever the tables and the times have become, is shown candidates
  -- of the snapshot after the last campaign of the cursor, in their order, and each once at most.
  pub walk-IsDrawn :
      (visits : List Visit) (c : PaidCursor)
      → IsCursor c
      → IsDrawn
          (walk history signature viewer visits (encode signature c viewer.id))
          (after c.last_campaign_id c.identities)
  unfolding walk
  walk-IsDrawn [] c valid = done _
  walk-IsDrawn (v ∷ visits) c valid =
      either
        (get_candidate_page history signature viewer (some (encode signature c viewer.id)) v.limit
          v.now v.tables)
        (λ page h. page-returned c v page valid h) (λ d. walk-IsDrawn visits d)
    where
      either :
          (r : Result PaidCandidatePage)
          → ((page : PaidCandidatePage)
              → r ≡ ok page
              → (leb 1 v.limit ≡ true)
                × (campaigns : List PaidCampaign) × (next_page c (remaining c campaigns) v.limit
                    ≡ page))
          → ((d : PaidCursor)
              → IsCursor d
              → IsDrawn
                  (walk history signature viewer visits (encode signature d viewer.id))
                  (after d.last_campaign_id d.identities))
          → IsDrawn
              (elim r [
                | err e ↦ walk history signature viewer visits (encode signature c viewer.id)
                | ok page ↦
                    page.items
                    ++ follow
                        (λ next_one. walk history signature viewer visits next_one)
                        page.next_cursor
              ])
              (after c.last_campaign_id c.identities)
      either (err e) h again = again c valid
      either (ok page) h again =
          let (some_limit, campaigns, same) = h page refl in
          subst
            (λ p.
              IsDrawn
                (p.items
                  ++ follow (λ next_one. walk history signature viewer visits next_one)
                      p.next_cursor)
                (after c.last_campaign_id c.identities))
            same
            (page-IsDrawn c v.limit campaigns
              (λ next_one. walk history signature viewer visits next_one) valid some_limit again)
