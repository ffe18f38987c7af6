-- ===== src/Paid/Cursor/RoundTrip.antt =====
-- A cursor is read back from its text, by its viewer and by nobody else.
use connextion_z_luna.Prelude.{
  ℕ, Bool, true, false, ◌≡◌, refl, ap, ◌∙◌, ◌&&◌, ltb, leb, ◌==◌, ◌^◌, ◌<◌, ◌≤◌, some, List, [],
  ◌∷◌, ◌++◌, any, all, map, length, arith, if◌then◌else◌,
}
use connextion_z_luna.Errors.{ok, err}
use connextion_z_luna.Python.Text.{has, starts_with, split, join}
use connextion_z_luna.Python.Text.Laws.{split-one, split-append, split-join, rpartition-append}
use connextion_z_luna.Python.Uuid.{uuid_text, parse_uuid}
use connextion_z_luna.Python.Uuid.Digits.{is_hex, all-none, length-append}
use connextion_z_luna.Python.Uuid.Laws.{parse_uuid-uuid_text}
use connextion_z_luna.Paid.Cursor.Texts.{
  is_pair_char, is_list_char, has_in_uuid, all-weaken, all-around, pair_text-chars, join-chars,
  length-body_of, body_of-ascii, same_text_refl,
}
use connextion_z_luna.Paid.Cursor.{
  PaidCursor, paid1, paid_cursor_prefix, is_ascii, pair_text, body_of, invalid, pair_of, pairs_of,
  is_snapshot, read_body, encode, decode, max_cursor_length,
}

-- A UUID has 128 bits.
abbrev pub is_uuid : ℕ → Bool
is_uuid value = ltb value (16 ^ 32)

parse : (value : ℕ) → is_uuid value ≡ true → parse_uuid (uuid_text value) ≡ some value
parse value h = parse_uuid-uuid_text value (below value (16 ^ 32) h)
  where
    below : (a b : ℕ) → ltb a b ≡ true → a < b
    below a b h = ground arith

-- Identities of 128 bits, which pass the conditions of `decode`.
pub record IsCursor (c : PaidCursor) : Type 0 where
  pub snapshot : is_snapshot c.identities c.last_campaign_id ≡ true
  pub campaigns : all (λ p. is_uuid p.0) c.identities ≡ true
  pub posts : all (λ p. is_uuid p.1) c.identities ≡ true

pair_of-pair_text :
    (p : ℕ × ℕ)
    → is_uuid p.0 ≡ true
    → is_uuid p.1 ≡ true
    → pair_of (split b':' (pair_text p)) ≡ some p
pair_of-pair_text (a, b) h k = rw (
  split-append b':' (uuid_text a) (uuid_text b) (has_in_uuid b':' refl a),
  split-one b':' (uuid_text b) (has_in_uuid b':' refl b),
  parse a h,
  parse b k,
)

pairs_of-map :
    (pairs : List (ℕ × ℕ))
    → all (λ p. is_uuid p.0) pairs ≡ true
    → all (λ p. is_uuid p.1) pairs ≡ true
    → pairs_of (map pair_text pairs) ≡ some pairs
unfolding pairs_of
pairs_of-map [] h k = refl
pairs_of-map (p ∷ pairs) h k = rw (
  pair_of-pair_text p (first (is_uuid p.0) _ h) (first (is_uuid p.1) _ k),
  pairs_of-map pairs (rest (is_uuid p.0) _ h) (rest (is_uuid p.1) _ k),
)
  where
    first : (a b : Bool) → (a && b) ≡ true → a ≡ true
    first a b h = ground arith

    rest : (a b : Bool) → (a && b) ≡ true → b ≡ true
    rest a b h = ground arith

any_comma : (pairs : List (ℕ × ℕ)) → any (has b',') (map pair_text pairs) ≡ false
any_comma [] = refl
any_comma (p ∷ pairs) = ground (
  arith,
  all-none is_pair_char (λ c. c == b',') (λ c h. ground arith) (pair_text p) (pair_text-chars p),
  any_comma pairs,
)

split_pairs :
    (pairs : List (ℕ × ℕ))
    → leb 1 (length pairs) ≡ true
    → split b',' (join b',' (map pair_text pairs)) ≡ map pair_text pairs
split_pairs [] h = absurd cc
split_pairs (p ∷ pairs) h =
    split-join b',' (pair_text p) (map pair_text pairs)
      (all-none is_pair_char (λ c. c == b',') (λ c h. ground arith) (pair_text p)
        (pair_text-chars p))
      (any_comma pairs)

split_body :
    (c : PaidCursor) (viewer_id : ℕ)
    → split b'.' (body_of c viewer_id)
      ≡ paid1
        ∷ uuid_text viewer_id
        ∷ uuid_text c.last_campaign_id
        ∷ join b',' (map pair_text c.identities)
        ∷ []
split_body c viewer_id =
    let pairs = join b',' (map pair_text c.identities) in
    let last = uuid_text c.last_campaign_id in
    split-append b'.' paid1 (uuid_text viewer_id ++ (b'.' ∷ (last ++ b'.' ∷ pairs))) refl
    ∙ ap (λ t. paid1 ∷ t)
        (split-append b'.' (uuid_text viewer_id) (last ++ b'.' ∷ pairs)
            (has_in_uuid b'.' refl viewer_id)
          ∙ ap (λ t. uuid_text viewer_id ∷ t)
              (split-append b'.' last pairs (has_in_uuid b'.' refl c.last_campaign_id)
                ∙ ap (λ t. last ∷ t)
                    (split-one b'.' pairs (
                      all-none is_list_char (λ d. d == b'.') (λ d h. ground arith) pairs
                        (join-chars c.identities)))))

-- The last campaign is one of the identities.
last_is_uuid :
    (last : ℕ) (pairs : List (ℕ × ℕ))
    → all (λ p. is_uuid p.0) pairs ≡ true
    → any (λ p. p.0 == last) pairs ≡ true
    → is_uuid last ≡ true
last_is_uuid last [] h k = absurd cc
last_is_uuid last (p ∷ pairs) h k = ground (arith, last_is_uuid last pairs)

snapshot-bounds :
    (c : PaidCursor)
    → IsCursor c
    → (leb 1 (length c.identities) ≡ true)
      × (length c.identities ≤ 100)
      × (any (λ p. p.0 == c.last_campaign_id) c.identities ≡ true)
unfolding is_snapshot
snapshot-bounds c valid =
    parts (leb 1 (length c.identities)) (length c.identities) _ _ _ valid.snapshot
  where
    parts :
        (a : Bool) (n : ℕ) (b d e : Bool)
        → (a && leb n 100 && b && d && e) ≡ true
        → (a ≡ true) × (n ≤ 100) × (e ≡ true)
    parts a n b d e h = ground arith

-- The parts of a body are read as the cursor, for its viewer.
read_body-split :
    (c : PaidCursor) (viewer_id reader_id : ℕ)
    → IsCursor c
    → is_uuid viewer_id ≡ true
    → read_body reader_id (split b'.' (body_of c viewer_id))
      ≡ (if viewer_id == reader_id then ok c else err invalid)
read_body-split c viewer_id reader_id valid viewer =
    let (some_pair, few, anchored) = snapshot-bounds c valid in
    rw
      (
        split_body c viewer_id,
        parse viewer_id viewer,
        parse c.last_campaign_id
            (last_is_uuid c.last_campaign_id c.identities valid.campaigns anchored),
        split_pairs c.identities some_pair,
        pairs_of-map c.identities valid.campaigns valid.posts,
        valid.snapshot,
      )
      (by_viewer (viewer_id == reader_id))
  where
    by_viewer :
        (mine : Bool)
        → (if true && mine && true
            then ok (record { identities = c.identities; last_campaign_id = c.last_campaign_id })
            else err invalid)
          ≡ (if mine then ok c else err invalid)
    by_viewer true = refl
    by_viewer false = refl

module _ (signature : List ℕ → List ℕ)
    (is_hex_digest : (body : List ℕ) → all is_hex (signature body) ≡ true)
    (digest_length : (body : List ℕ) → length (signature body) ≡ 64) where
  -- A signed body reaches its reader.
  decode-signed :
      (body : List ℕ) (reader_id : ℕ)
      → length body ≤ 8000
      → all is_ascii body ≡ true
      → starts_with paid_cursor_prefix (body ++ b'.' ∷ signature body) ≡ true
      → decode signature (body ++ b'.' ∷ signature body) reader_id
        ≡ read_body reader_id (split b'.' body)
  unfolding decode
  decode-signed body reader_id short ascii prefixed = rw (
    fits,
    all-around is_ascii body (signature body) b'.' refl ascii
        (all-weaken is_hex is_ascii (λ c h. ground arith) (signature body) (is_hex_digest body)),
    prefixed,
    rpartition-append b'.' body (signature body) (
        all-none is_hex (λ c. c == b'.') (λ c h. ground arith) (signature body)
          (is_hex_digest body)),
    same_text_refl (signature body),
  )
    where
      fits : ltb max_cursor_length (length (body ++ b'.' ∷ signature body)) ≡ false
      fits = ground (arith, length-append body (b'.' ∷ signature body), digest_length body)

  -- Where the signature is 64 digits in base 16, a cursor of 1 to 100 different campaigns with different
  -- posts, whose last campaign is one of them, that was encoded for a viewer is decoded for that
  -- viewer as itself, and refused for any other reader.
  pub decode-encode :
      (c : PaidCursor) (viewer_id reader_id : ℕ)
      → IsCursor c
      → is_uuid viewer_id ≡ true
      → decode signature (encode signature c viewer_id) reader_id
        ≡ (if viewer_id == reader_id then ok c else err invalid)
  unfolding encode
  decode-encode c viewer_id reader_id valid viewer =
      let (some_pair, few, anchored) = snapshot-bounds c valid in
      decode-signed (body_of c viewer_id) reader_id (omega (arith, length-body_of c viewer_id))
        (body_of-ascii c viewer_id) refl
      ∙ read_body-split c viewer_id reader_id valid viewer
