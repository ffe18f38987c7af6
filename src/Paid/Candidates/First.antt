-- ===== src/Paid/Candidates/First.antt =====
-- The first page, and the walk that starts with it.
use mathlib.Core.List.{append-nil}
use connextion_z_luna.Prelude.{
  ℕ, zero, suc, true, ◌≡◌, sym, subst, ap, ◌∙◌, ltb, leb, ◌≤◌, none, some, List, [], ◌++◌, map, all,
  take, length, arith, Bool-cases, inl, inr, if◌then◌else◌,
}
use connextion_z_luna.Prelude.Rows.{unique}
use connextion_z_luna.Errors.{ok}
use connextion_z_luna.Exec.Returns.{ok_injective}
use connextion_z_luna.Python.Uuid.Digits.{is_hex}
use connextion_z_luna.Paid.Model.{PaidCampaign, User}
use connextion_z_luna.Paid.Frequency.{PaidImpressionHistoryReader}
use connextion_z_luna.Paid.Database.{Database}
use connextion_z_luna.Paid.Eligibility.{get_eligible_campaigns}
use connextion_z_luna.Paid.Delivery.{PaidCandidate}
use connextion_z_luna.Paid.Rules.{>>=-ok, guard-ok}
use connextion_z_luna.Paid.Ranking.{rank_eligible}
use connextion_z_luna.Paid.Cursor.{max_paid_candidates, encode}
use connextion_z_luna.Paid.Cursor.RoundTrip.{is_uuid}
use connextion_z_luna.Paid.Candidates.{
  PaidCandidatePage, after, candidate_of, identity, unique_posts, last_of, page_of,
  get_ranked_candidates, first_page, get_candidate_page,
}
use connextion_z_luna.Paid.Candidates.Drawn.{
  IsDrawn, holds, keep-IsDrawn, last_of-keep, IsDrawn-append,
}
use connextion_z_luna.Paid.Candidates.Parts.{
  IsFrom, get_eligible_campaigns-IsFrom, rank_eligible-IsFrom,
}
use connextion_z_luna.Paid.Candidates.Distinct.{drawn-unique, keep-identity}
use connextion_z_luna.Paid.Candidates.Snapshot.{
  has_uuids, identities-unique, posts-unique, snapshot-IsCursor,
}
use connextion_z_luna.Prelude.Part.{IsPart-trans, length-map}
use connextion_z_luna.Paid.Candidates.Walk.{Visit, follow, walk, walk-IsDrawn, in_bounds}

-- The lemmas of a page, where every candidate is kept.
module _ (posts : List PaidCandidate) (n : ℕ) where
  posts-IsDrawn : IsDrawn (take n posts) (map identity posts)
  posts-IsDrawn =
      subst (λ kept. IsDrawn (take n kept) (map identity posts)) (keep-identity posts)
        (keep-IsDrawn (λ p. true) (map identity posts) n)

  last_is_held :
      ltb n (length posts) ≡ true → holds (last_of (take (suc n) posts)) (map identity posts) ≡ true
  last_is_held =
      subst
        (λ kept.
          ltb n (length kept) ≡ true
          → holds (last_of (take (suc n) kept)) (map identity posts) ≡ true)
        (keep-identity posts) (last_of-keep (λ p. true) (map identity posts) n)

  posts-append :
      (shown : List PaidCandidate)
      → unique (λ p. p.0) (map identity posts) ≡ true
      → ltb n (length posts) ≡ true
      → IsDrawn shown (after (last_of (take (suc n) posts)) (map identity posts))
      → IsDrawn (take (suc n) posts ++ shown) (map identity posts)
  posts-append shown different =
      subst
        (λ kept.
          ltb n (length kept) ≡ true
          → IsDrawn shown (after (last_of (take (suc n) kept)) (map identity posts))
          → IsDrawn (take (suc n) kept ++ shown) (map identity posts))
        (keep-identity posts) (IsDrawn-append (λ p. true) (map identity posts) n shown different)

module _ (history : PaidImpressionHistoryReader) (signature : List ℕ → List ℕ) (viewer : User) where
  ranked-IsFrom :
      (now limit : ℕ) (s : Database) (candidates : List PaidCandidate)
      → get_ranked_candidates history viewer now limit s ≡ ok candidates
      → (ranked : List PaidCampaign) × (map candidate_of ranked ≡ candidates)
        × IsFrom ranked s.campaigns
        × (length ranked ≤ limit)
  unfolding get_ranked_candidates
  ranked-IsFrom now limit s candidates h =
      let (campaigns, found, continued) =
        >>=-ok (get_eligible_campaigns history viewer now limit (λ id. true) s) _ candidates h in
      let (ranked, ordered, same) = >>=-ok (rank_eligible now campaigns) _ candidates continued in
      let (of_table, few) =
        get_eligible_campaigns-IsFrom history viewer now s limit (λ id. true) campaigns found in
      let of_campaigns = rank_eligible-IsFrom now campaigns ranked ordered in
      (
        ranked,
        ok_injective same,
        IsPart-trans (λ c. c.id) ranked campaigns s.campaigns of_campaigns of_table,
        omega (arith, of_campaigns.shorter),
      )

  -- A first page that is returned.
  first-returned :
      (limit now : ℕ) (s : Database) (page : PaidCandidatePage)
      → get_candidate_page history signature viewer none limit now s ≡ ok page
      → (leb 1 limit ≡ true) × (first_page history signature viewer limit now s ≡ ok page)
  unfolding get_candidate_page
  first-returned limit now s page h =
      let (is_active, limited) = guard-ok _ _ _ page h in
      let (in_range, rest) = guard-ok _ _ _ page limited in
      (in_bounds (leb 1 limit) (leb limit 100) in_range, rest)

  abbrev first_items : ℕ → List PaidCandidate → PaidCandidatePage
  first_items limit posts = record {
    items = take limit posts;
    next_cursor =
        if ltb limit (length posts)
        then some (
            encode signature
              (record {
                identities = map identity posts;
                last_campaign_id = last_of (take limit posts);
              })
              viewer.id)
        else none;
  }

  first_page-posts :
      (limit now : ℕ) (s : Database) (page : PaidCandidatePage)
      → first_page history signature viewer limit now s ≡ ok page
      → (ranked : List PaidCampaign) × IsFrom ranked s.campaigns
        × (length ranked ≤ 100)
        × (first_items limit (unique_posts [] (map candidate_of ranked)) ≡ page)
  unfolding first_page
  first_page-posts limit now s page h =
      let (candidates, found, paged) =
        >>=-ok (get_ranked_candidates history viewer now max_paid_candidates s)
          (λ ranked.
            let posts = unique_posts [] ranked in
            page_of history signature (map identity posts) posts limit viewer.id)
          page h in
      let (ranked, same, of_table, few) =
        ranked-IsFrom now max_paid_candidates s candidates found in
      (
        ranked,
        of_table,
        few,
        ap (λ cs. first_items limit (unique_posts [] cs)) same ∙ ok_injective paged,
      )

  module _ (is_hex_digest : (body : List ℕ) → all is_hex (signature body) ≡ true)
      (digest_length : (body : List ℕ) → length (signature body) ≡ 64)
      (viewer_is_known : is_uuid viewer.id ≡ true) (s : Database)
      (known : all has_uuids s.campaigns ≡ true)
      (different : unique (λ c. c.id) s.campaigns ≡ true) where
    items-IsDrawn :
        (limit : ℕ) (ranked : List PaidCampaign) (visits : List Visit)
        → IsFrom ranked s.campaigns
        → length ranked ≤ 100
        → leb 1 limit ≡ true
        → IsDrawn
            ((first_items limit (unique_posts [] (map candidate_of ranked))).items
              ++ follow
                  (λ next_one. walk history signature viewer visits next_one)
                  (first_items limit (unique_posts [] (map candidate_of ranked))).next_cursor)
            (map identity (unique_posts [] (map candidate_of ranked)))
    items-IsDrawn zero ranked visits from few h = absurd cc
    items-IsDrawn (suc n) ranked visits from few h =
        elim (Bool-cases (ltb (suc n) (length posts))) [
          | inl more ↦ rw more (continued more)
          | inr end ↦ rw end (
              subst (λ shown. IsDrawn shown (map identity posts))
                (sym (append-nil (take (suc n) posts))) (posts-IsDrawn posts (suc n)))
        ]
      where
        posts : List PaidCandidate
        posts = unique_posts [] (map candidate_of ranked)

        room : ltb (suc n) (length posts) ≡ true → ltb n (length posts) ≡ true
        room more = ground arith

        some_post : ltb (suc n) (length posts) ≡ true → leb 1 (length (map identity posts)) ≡ true
        some_post more = ground (arith, length-map identity posts)

        continued :
            ltb (suc n) (length posts) ≡ true
            → IsDrawn
                (take (suc n) posts
                  ++ walk history signature viewer visits (
                      encode signature
                        (record {
                          identities = map identity posts;
                          last_campaign_id = last_of (take (suc n) posts);
                        })
                        viewer.id))
                (map identity posts)
        continued more =
            posts-append posts n _ (identities-unique s.campaigns known different ranked from few)
              (room more)
              (walk-IsDrawn history signature is_hex_digest digest_length viewer viewer_is_known
                visits
                (record {
                  identities = map identity posts;
                  last_campaign_id = last_of (take (suc n) posts);
                })
                (snapshot-IsCursor s.campaigns known different ranked from few
                  (last_of (take (suc n) posts)) (some_post more)
                  (last_is_held posts n (room more))))

    -- Where the signature is 64 digits in base 16, the campaigns of the table have different identifiers
    -- and these, their posts' and the viewer's have 128 bits, a viewer who is given a first page and
    -- then asks for page after page, whatever the tables and the times become after the first, is
    -- shown no post twice and no campaign twice.
    pub first_walk-unique :
        (limit now : ℕ) (page : PaidCandidatePage) (visits : List Visit)
        → get_candidate_page history signature viewer none limit now s ≡ ok page
        → (unique
              (λ c. c.post_id)
              (page.items
                ++ follow
                    (λ next_one. walk history signature viewer visits next_one)
                    page.next_cursor)
            ≡ true)
          × (unique
                (λ c. c.paid_campaign_id)
                (page.items
                  ++ follow
                      (λ next_one. walk history signature viewer visits next_one)
                      page.next_cursor)
              ≡ true)
    first_walk-unique limit now page visits h =
        let (some_limit, first) = first-returned limit now s page h in
        let (ranked, from, few, same) = first_page-posts limit now s page first in
        let drawn =
          subst
            (λ p.
              IsDrawn
                (p.items
                  ++ follow (λ next_one. walk history signature viewer visits next_one)
                      p.next_cursor)
                (map identity (unique_posts [] (map candidate_of ranked))))
            same (items-IsDrawn limit ranked visits from few some_limit) in
        (
          drawn-unique (λ c. c.post_id) drawn
              (posts-unique s.campaigns known different ranked from few),
          drawn-unique (λ c. c.paid_campaign_id) drawn
              (identities-unique s.campaigns known different ranked from few),
        )
