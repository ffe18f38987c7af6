-- ===== src/Paid/Cursor.antt =====
-- backend/services/paid_pagination.py. A text is its code points, and `signature` is `_signature`, the
-- HMAC-SHA256 of the body under the secret key in hexadecimal form. A UUID is its 128-bit number.
pub mod Texts
pub mod RoundTrip
use connextion_z_luna.Prelude.{
  ℕ, Bool, not, ◌&&◌, ◌||◌, ltb, leb, ◌==◌, Option, none, some, List, [], ◌∷◌, ◌++◌, map, any, all,
  length, count_distinct, if◌then◌else◌,
}
use connextion_z_luna.Errors.{Error, Result, ok, err, ◌>>◌, raise_if}
use connextion_z_luna.Python.Text.{same_text, starts_with, split, join, rpartition}
use connextion_z_luna.Python.Uuid.{uuid_text, parse_uuid}

abbrev pub max_paid_candidates : ℕ
max_paid_candidates = 100

-- "paid1".
abbrev pub paid1 : List ℕ
paid1 = b'p' ∷ b'a' ∷ b'i' ∷ b'd' ∷ b'1' ∷ []

-- "paid1.".
abbrev pub paid_cursor_prefix : List ℕ
paid_cursor_prefix = b'p' ∷ b'a' ∷ b'i' ∷ b'd' ∷ b'1' ∷ b'.' ∷ []

abbrev pub max_cursor_length : ℕ
max_cursor_length = 16000

-- The ranked snapshot: campaigns with their posts, and the last campaign that was shown.
pub record PaidCursor : Type 0 where
  pub identities : List (ℕ × ℕ)
  pub last_campaign_id : ℕ

abbrev pub pair_text : ℕ × ℕ → List ℕ
pair_text (campaign_id, post_id) = uuid_text campaign_id ++ b':' ∷ uuid_text post_id

abbrev pub body_of : PaidCursor → ℕ → List ℕ
body_of c viewer_id =
    paid_cursor_prefix
    ++ (uuid_text viewer_id
        ++ (b'.'
            ∷ (uuid_text c.last_campaign_id ++ (b'.' ∷ join b',' (map pair_text c.identities)))))

abbrev pub invalid : Error
invalid = Error.value_error "Invalid Paid feed cursor"

abbrev pub is_ascii : ℕ → Bool
is_ascii c = ltb c 128

abbrev both : Option ℕ → Option ℕ → Option (ℕ × ℕ)
both (some a) (some b) = some (a, b)
both _ _ = none

-- A pair between its colon.
abbrev pub pair_of : List (List ℕ) → Option (ℕ × ℕ)
pair_of (campaign_id ∷ post_id ∷ []) = both (parse_uuid campaign_id) (parse_uuid post_id)
pair_of _ = none

abbrev before_rest : Option (ℕ × ℕ) → Option (List (ℕ × ℕ)) → Option (List (ℕ × ℕ))
before_rest (some pair) (some rest) = some (pair ∷ rest)
before_rest _ _ = none

unfoldable pub pairs_of : List (List ℕ) → Option (List (ℕ × ℕ))
pairs_of [] = some []
pairs_of (pair ∷ rest) = before_rest (pair_of (split b':' pair)) (pairs_of rest)

-- The conditions on the pairs and on the last campaign.
unfoldable pub is_snapshot : List (ℕ × ℕ) → ℕ → Bool
is_snapshot pairs last_id =
    leb 1 (length pairs)
    && leb (length pairs) max_paid_candidates
    && count_distinct (map (λ p. p.0) pairs) == length pairs
    && count_distinct (map (λ p. p.1) pairs) == length pairs
    && any (λ p. p.0 == last_id) pairs

abbrev pub accept : ℕ → List ℕ → Option ℕ → Option ℕ → Option (List (ℕ × ℕ)) → Result PaidCursor
accept viewer_id prefix (some owner) (some last_id) (some pairs) =
    if same_text prefix paid1 && owner == viewer_id && is_snapshot pairs last_id
    then ok (record { identities = pairs; last_campaign_id = last_id })
    else err invalid
accept viewer_id prefix _ _ _ = err invalid

-- The parts of the body between its dots.
abbrev pub read_body : ℕ → List (List ℕ) → Result PaidCursor
read_body viewer_id (prefix ∷ owner ∷ anchor ∷ identities ∷ []) =
    accept viewer_id prefix (parse_uuid owner) (parse_uuid anchor)
      (pairs_of (split b',' identities))
read_body viewer_id _ = err invalid

module _ (signature : List ℕ → List ℕ) where
  unfoldable pub encode : PaidCursor → ℕ → List ℕ
  unfolding join uuid_text
  encode c viewer_id = body_of c viewer_id ++ b'.' ∷ signature (body_of c viewer_id)

  unfoldable pub decode : List ℕ → ℕ → Result PaidCursor
  unfolding rpartition split parse_uuid pairs_of is_snapshot
  decode cursor viewer_id = do
    raise_if
        (ltb max_cursor_length (length cursor)
          || not (all is_ascii cursor)
          || not (starts_with paid_cursor_prefix cursor))
        invalid
    let parts = rpartition b'.' cursor
    raise_if (not (same_text (signature parts.0) parts.1)) invalid
    read_body viewer_id (split b'.' parts.0)
