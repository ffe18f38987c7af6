-- ===== src/Paid/Cursor/Texts.antt =====
-- The texts of a cursor: their characters and their lengths.
use connextion_z_luna.Prelude.{
  ℕ, Bool, true, false, ◌≡◌, refl, ◌∙◌, ◌||◌, ◌==◌, ◌+◌, ◌*◌, ◌≤◌, List, [], ◌∷◌, ◌++◌, all, map,
  length, arith,
}
use connextion_z_luna.Python.Text.{has, join, same_text}
use connextion_z_luna.Python.Uuid.{uuid_text}
use connextion_z_luna.Python.Uuid.Digits.{all-none, all-append, length-append}
use connextion_z_luna.Python.Uuid.Laws.{is_uuid_char, uuid_text-chars, length-uuid_text}
use connextion_z_luna.Paid.Cursor.{PaidCursor, is_ascii, pair_text, body_of}

pub has_in_uuid : (c : ℕ) → is_uuid_char c ≡ false → (value : ℕ) → has c (uuid_text value) ≡ false
has_in_uuid c h value =
    all-none is_uuid_char (λ d. d == c) differs (uuid_text value) (uuid_text-chars value)
  where
    differs : (d : ℕ) → is_uuid_char d ≡ true → (d == c) ≡ false
    differs d k = ground arith

has-append : (c : ℕ) (s t : List ℕ) → has c (s ++ t) ≡ (has c s || has c t)
has-append c [] t = refl
has-append c (d ∷ s) t = ground (arith, has-append c s t)

-- The characters of the pairs.
abbrev pub is_pair_char : ℕ → Bool
is_pair_char c = is_uuid_char c || c == b':'

abbrev pub is_list_char : ℕ → Bool
is_list_char c = is_pair_char c || c == b','

pub all-weaken :
    (good fine : ℕ → Bool)
    → ((c : ℕ) → good c ≡ true → fine c ≡ true)
    → (s : List ℕ) → all good s ≡ true
    → all fine s ≡ true
all-weaken good fine f [] h = refl
all-weaken good fine f (c ∷ s) h = ground (arith, f c, all-weaken good fine f s)

uuid_text-weaken :
    (fine : ℕ → Bool)
    → ((c : ℕ) → is_uuid_char c ≡ true → fine c ≡ true)
    → (value : ℕ) → all fine (uuid_text value) ≡ true
uuid_text-weaken fine f value =
    all-weaken is_uuid_char fine f (uuid_text value) (uuid_text-chars value)

pub all-around :
    (fine : ℕ → Bool) (s t : List ℕ) (c : ℕ)
    → fine c ≡ true
    → all fine s ≡ true
    → all fine t ≡ true
    → all fine (s ++ c ∷ t) ≡ true
all-around fine s t c h k l = all-append fine s (c ∷ t) ∙ ground arith

pub pair_text-chars : (p : ℕ × ℕ) → all is_pair_char (pair_text p) ≡ true
pair_text-chars (a, b) =
    all-around is_pair_char (uuid_text a) (uuid_text b) b':' refl
      (uuid_text-weaken is_pair_char (λ c h. ground arith) a)
      (uuid_text-weaken is_pair_char (λ c h. ground arith) b)

pub join-chars : (pairs : List (ℕ × ℕ)) → all is_list_char (join b',' (map pair_text pairs)) ≡ true
unfolding join
join-chars [] = refl
join-chars (p ∷ []) =
    all-weaken is_pair_char is_list_char (λ c h. ground arith) (pair_text p) (pair_text-chars p)
join-chars (p ∷ q ∷ pairs) =
    all-around is_list_char (pair_text p) (join b',' (map pair_text (q ∷ pairs))) b',' refl
      (all-weaken is_pair_char is_list_char (λ c h. ground arith) (pair_text p) (pair_text-chars p))
      (join-chars (q ∷ pairs))

length-pair_text : (p : ℕ × ℕ) → length (pair_text p) ≡ 73
length-pair_text (a, b) = omega (
  arith,
  length-append (uuid_text a) (b':' ∷ uuid_text b),
  length-uuid_text a,
  length-uuid_text b,
)

length-join : (pairs : List (ℕ × ℕ)) → length (join b',' (map pair_text pairs)) ≤ 74 * length pairs
unfolding join
length-join [] = omega arith
length-join (p ∷ []) = omega (arith, length-pair_text p)
length-join (p ∷ q ∷ pairs) = omega (
  arith,
  length-append (pair_text p) (b',' ∷ join b',' (map pair_text (q ∷ pairs))),
  length-pair_text p,
  length-join (q ∷ pairs),
)

pub length-body_of :
    (c : PaidCursor) (viewer_id : ℕ) → length (body_of c viewer_id) ≤ 80 + 74 * length c.identities
length-body_of c viewer_id =
    let pairs = join b',' (map pair_text c.identities) in
    let last = uuid_text c.last_campaign_id in
    omega (
      arith,
      length-append (uuid_text viewer_id) (b'.' ∷ (last ++ b'.' ∷ pairs)),
      length-append last (b'.' ∷ pairs),
      length-uuid_text viewer_id,
      length-uuid_text c.last_campaign_id,
      length-join c.identities,
    )

pub body_of-ascii : (c : PaidCursor) (viewer_id : ℕ) → all is_ascii (body_of c viewer_id) ≡ true
body_of-ascii c viewer_id =
    all-around is_ascii (uuid_text viewer_id) _ b'.' refl (plain viewer_id) (
      all-around is_ascii (uuid_text c.last_campaign_id) _ b'.' refl (plain c.last_campaign_id) (
        all-weaken is_list_char is_ascii (λ d h. ground arith)
          (join b',' (map pair_text c.identities)) (join-chars c.identities)))
  where
    plain : (value : ℕ) → all is_ascii (uuid_text value) ≡ true
    plain = uuid_text-weaken is_ascii (λ d h. ground arith)

pub same_text_refl : (s : List ℕ) → same_text s s ≡ true
same_text_refl [] = refl
same_text_refl (c ∷ s) = ground (arith, same_text_refl s)
