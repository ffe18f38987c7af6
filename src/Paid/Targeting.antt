-- ===== src/Paid/Targeting.antt =====
-- backend/services/paid_targeting.py. A dict has each key once, and a JSON text is its characters.
use Prim.Native.Char.{code}
use connextion_z_luna.Prelude.{
  ℕ, String, Bool, true, false, not, ◌&&◌, ◌||◌, ltb, leb, ◌==◌, ◌+◌, Option, none, some, List, [],
  ◌∷◌, ◌++◌, map, any, find, length, if◌then◌else◌, str_eq, str_len, str_ltb, strip, sorted_by,
}
use connextion_z_luna.Errors.{Error, Result, ok, err, ◌>>=◌}
use connextion_z_luna.Paid.Model.{
  Element, text, not_text, Tags, list, not_list, Targeting, absent, not_object, object,
}

abbrev pub paid_target_tags : List String
paid_target_tags =
    "music" ∷ "fitness" ∷ "travel" ∷ "cooking" ∷ "art" ∷ "tech" ∷ "gaming" ∷ "fashion" ∷ "business"
    ∷ []

-- `str.casefold` of one character, where the result is ASCII; any other character stays as it is,
-- and no approved topic holds one.
unfoldable pub casefold_char : ℕ → List ℕ
casefold_char c =
    if leb b'A' c && leb c b'Z'
    then (c + 32) ∷ []
    else if c == 0xdf || c == 0x1e9e
    then b's' ∷ b's' ∷ []
    else if c == 0x17f
    then b's' ∷ []
    else if c == 0x212a
    then b'k' ∷ []
    else if c == 0xfb00
    then b'f' ∷ b'f' ∷ []
    else if c == 0xfb01
    then b'f' ∷ b'i' ∷ []
    else if c == 0xfb02
    then b'f' ∷ b'l' ∷ []
    else if c == 0xfb03
    then b'f' ∷ b'f' ∷ b'i' ∷ []
    else if c == 0xfb04
    then b'f' ∷ b'f' ∷ b'l' ∷ []
    else if c == 0xfb05 || c == 0xfb06
    then b's' ∷ b't' ∷ []
    else c ∷ []

unfoldable pub casefold : String → List ℕ
unfolding casefold_char
casefold String.[] = []
casefold (String.◌∷◌ c s) = casefold_char (code c) ++ casefold s

abbrev codes : String → List ℕ
codes String.[] = []
codes (String.◌∷◌ c s) = code c ∷ codes s

abbrev codes_eq : List ℕ → List ℕ → Bool
codes_eq [] [] = true
codes_eq (a ∷ s) (b ∷ t) = a == b && codes_eq s t
codes_eq _ _ = false

-- `tag.strip().casefold()`, if it is an approved topic.
unfoldable pub topic_of : String → Option String
unfolding casefold strip
topic_of tag =
    let value = casefold (strip tag) in
    find (λ topic. codes_eq (codes topic) value) paid_target_tags

-- The loop over the tags, with the topics that it has gathered.
unfoldable pub normalize : List Element → List String → Result (List String)
unfolding topic_of str_len
normalize [] normalized = ok normalized
normalize (not_text ∷ rest) normalized =
    err (Error.value_error "Targeting tags must be strings of at most 64 characters")
normalize (text tag ∷ rest) normalized =
    if ltb 64 (str_len tag)
    then err (Error.value_error "Targeting tags must be strings of at most 64 characters")
    else elim (topic_of tag) [
      | none ↦ err (Error.value_error "Unknown or unsupported targeting topic")
      | some topic ↦
          if any (str_eq topic) normalized
          then err (Error.value_error "Duplicate targeting topics are not allowed")
          else normalize rest (normalized ++ topic ∷ [])
    ]

abbrev sort_topics : List String → List String
sort_topics = sorted_by str_ltb

-- `{"tags": topics}`.
abbrev pub tagged : List String → Targeting
tagged topics = object (("tags", list (map text topics)) ∷ [])

unfoldable pub validate_tags : Tags → Result Targeting
unfolding normalize sorted_by str_ltb
validate_tags not_list =
    err (Error.value_error "Targeting tags must be a nonempty list of approved topics")
validate_tags (list tags) =
    if leb 1 (length tags) && leb (length tags) (length paid_target_tags)
    then normalize tags [] >>= (λ normalized. ok (tagged (sort_topics normalized)))
    else err (Error.value_error "Targeting tags must be a nonempty list of approved topics")

unfoldable pub validate_targeting : Targeting → Result Targeting
unfolding validate_tags
validate_targeting absent = ok absent
validate_targeting not_object = err (Error.value_error "Targeting must be a JSON object")
validate_targeting (object []) = ok (object [])
validate_targeting (object ((key, tags) ∷ fields)) =
    if not (str_eq key "tags") || any (λ f. not (str_eq f.0 "tags")) fields
    then err (Error.value_error "Unsupported targeting fields; only tags are supported")
    else validate_tags tags

-- `bool(targeting)`.
abbrev pub is_targeted : Targeting → Bool
is_targeted absent = false
is_targeted (object []) = false
is_targeted _ = true

-- The approved topics among the viewer's tags.
unfoldable pub viewer_topics : List Element → List String
unfolding topic_of
viewer_topics [] = []
viewer_topics (not_text ∷ rest) = viewer_topics rest
viewer_topics (text tag ∷ rest) = elim (topic_of tag) [
  | none ↦ viewer_topics rest
  | some topic ↦ topic ∷ viewer_topics rest
]

-- `bool(topics.intersection(tags))`.
abbrev meets : List String → List Element → Bool
meets topics [] = false
meets topics (not_text ∷ rest) = meets topics rest
meets topics (text tag ∷ rest) = any (str_eq tag) topics || meets topics rest

unfoldable pub intersects : Targeting → Tags → Bool
unfolding viewer_topics
intersects (object ((key, list tags) ∷ fields)) (list viewer_tags) =
    meets (viewer_topics viewer_tags) tags
intersects (object ((key, list tags) ∷ fields)) not_list = false
intersects (object ((key, not_list) ∷ fields)) viewer_tags = false
intersects _ viewer_tags = true

unfoldable pub targeting_matches : Targeting → Tags → Result Bool
unfolding validate_targeting intersects
targeting_matches targeting viewer_tags =
    validate_targeting targeting >>= (λ config. ok (intersects config viewer_tags))
