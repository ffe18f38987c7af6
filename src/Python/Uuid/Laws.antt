-- ===== src/Python/Uuid/Laws.antt =====
-- A UUID is read back from its text.
use connextion_z_luna.Prelude.{
  ℕ, zero, suc, Bool, true, false, ◌≡◌, refl, sym, ap, ◌∙◌, not, ◌||◌, ◌==◌, ◌+◌, ◌-◌, ◌^◌, ◌<◌,
  ◌≤◌, some, List, [], ◌∷◌, ◌++◌, any, all, take, filter, length, arith,
}
use connextion_z_luna.Prelude.Rows.{filter-append}
use connextion_z_luna.Python.Text.{has}
use connextion_z_luna.Python.Text.Laws.{remove-absent, strip_by-clean}
use connextion_z_luna.Python.Uuid.Digits.{
  is_hex, all-append, length-append, hex-all, length-hex, int_16-hex, all-none,
}
use connextion_z_luna.Python.Uuid.{drop, hex, hyphened, uuid_text, is_brace, parse_uuid}

take-drop : (n : ℕ) (s : List ℕ) → take n s ++ drop n s ≡ s
take-drop zero s = refl
take-drop (suc n) [] = refl
take-drop (suc n) (c ∷ s) = ap (λ t. c ∷ t) (take-drop n s)

drop-nil : (k : ℕ) → drop {A = ℕ} k [] ≡ []
drop-nil zero = refl
drop-nil (suc k) = refl

drop-drop : (m n : ℕ) (s : List ℕ) → drop m (drop n s) ≡ drop (n + m) s
drop-drop m zero s = ap (λ k. drop k s) (plus_zero m)
  where
    plus_zero : (m : ℕ) → m ≡ 0 + m
    plus_zero m = omega arith
drop-drop m (suc n) [] = drop-nil m ∙ sym (drop-nil (suc n + m))
drop-drop m (suc n) (c ∷ s) = drop-drop m n s ∙ ap (λ k. drop k (c ∷ s)) (suc_plus n m)
  where
    suc_plus : (n m : ℕ) → suc (n + m) ≡ suc n + m
    suc_plus n m = omega arith

module _ (test : ℕ → Bool) where
  all-take : (n : ℕ) (s : List ℕ) → all test s ≡ true → all test (take n s) ≡ true
  all-take zero s h = refl
  all-take (suc n) [] h = refl
  all-take (suc n) (c ∷ s) h = ground (arith, all-take n s)

  all-drop : (n : ℕ) (s : List ℕ) → all test s ≡ true → all test (drop n s) ≡ true
  all-drop zero s h = h
  all-drop (suc n) [] h = refl
  all-drop (suc n) (c ∷ s) h = ground (arith, all-drop n s)

abbrev is_not_hyphen : ℕ → Bool
is_not_hyphen c = not (c == b'-')

filter-hex : (s : List ℕ) → all is_hex s ≡ true → filter is_not_hyphen s ≡ s
filter-hex [] h = refl
filter-hex (c ∷ s) h = ground (arith, filter-hex s)

-- The characters of a UUID's text.
abbrev pub is_uuid_char : ℕ → Bool
is_uuid_char c = is_hex c || c == b'-'

all-weaken : (s : List ℕ) → all is_hex s ≡ true → all is_uuid_char s ≡ true
all-weaken [] h = refl
all-weaken (c ∷ s) h = ground (arith, all-weaken s)

hyphen-append :
    (s t : List ℕ)
    → all is_hex s ≡ true
    → filter is_not_hyphen (s ++ b'-' ∷ t) ≡ s ++ filter is_not_hyphen t
hyphen-append s t h =
    filter-append is_not_hyphen s (b'-' ∷ t)
    ∙ ap (λ r. r ++ filter is_not_hyphen t) (filter-hex s h)

chars-append :
    (s t : List ℕ)
    → all is_hex s ≡ true
    → all is_uuid_char t ≡ true
    → all is_uuid_char (s ++ b'-' ∷ t) ≡ true
chars-append s t h k = all-append is_uuid_char s (b'-' ∷ t) ∙ ground (arith, all-weaken s h)

module _ (h : List ℕ) (good : all is_hex h ≡ true) where
  piece : (m n : ℕ) → all is_hex (take m (drop n h)) ≡ true
  piece m n = all-take is_hex m (drop n h) (all-drop is_hex n h good)

  hyphened-chars : all is_uuid_char (hyphened h) ≡ true
  hyphened-chars = chars-append (take 8 h) _ (all-take is_hex 8 h good) (
      chars-append (take 4 (drop 8 h)) _ (piece 4 8) (
        chars-append (take 4 (drop 12 h)) _ (piece 4 12) (
          chars-append (take 4 (drop 16 h)) _ (piece 4 16)
            (all-weaken (drop 20 h) (all-drop is_hex 20 h good)))))

  cut : (m n k : ℕ) → n + m ≡ k → take m (drop n h) ++ drop k h ≡ drop n h
  cut m n k e =
      ap (λ t. take m (drop n h) ++ t) (ap (λ j. drop j h) (sym e) ∙ sym (drop-drop m n h))
      ∙ take-drop m (drop n h)

  plain : filter is_not_hyphen (hyphened h) ≡ h
  plain =
      hyphen-append (take 8 h) _ (all-take is_hex 8 h good)
      ∙ ap (λ t. take 8 h ++ t)
          (hyphen-append (take 4 (drop 8 h)) _ (piece 4 8)
            ∙ ap (λ t. take 4 (drop 8 h) ++ t)
                (hyphen-append (take 4 (drop 12 h)) _ (piece 4 12)
                  ∙ ap (λ t. take 4 (drop 12 h) ++ t)
                      (hyphen-append (take 4 (drop 16 h)) _ (piece 4 16)
                        ∙ ap (λ t. take 4 (drop 16 h) ++ t)
                            (filter-hex (drop 20 h) (all-drop is_hex 20 h good))
                        ∙ cut 4 16 20 refl)
                  ∙ cut 4 12 16 refl)
            ∙ cut 4 8 12 refl)
      ∙ take-drop 8 h

length-take : (n : ℕ) (s : List ℕ) → n ≤ length s → length (take n s) ≡ n
length-take zero s h = refl
length-take (suc n) [] h = absurd (omega arith)
length-take (suc n) (c ∷ s) h = omega (arith, length-take n s)

length-drop : (n : ℕ) (s : List ℕ) → length (drop n s) ≡ length s - n
length-drop zero s = omega arith
length-drop (suc n) [] = omega arith
length-drop (suc n) (c ∷ s) = omega (arith, length-drop n s)

length-piece : (m n : ℕ) (s : List ℕ) → n + m ≤ length s → length (take m (drop n s)) ≡ m
length-piece m n s h = length-take m (drop n s) (omega (arith, length-drop n s))

length-hyphened : (h : List ℕ) → length h ≡ 32 → length (hyphened h) ≡ 36
length-hyphened h k =
    let last = drop 20 h in
    let fourth = take 4 (drop 16 h) ++ b'-' ∷ last in
    let third = take 4 (drop 12 h) ++ b'-' ∷ fourth in
    let second = take 4 (drop 8 h) ++ b'-' ∷ third in
    omega (
      arith,
      length-append (take 8 h) (b'-' ∷ second),
      length-append (take 4 (drop 8 h)) (b'-' ∷ third),
      length-append (take 4 (drop 12 h)) (b'-' ∷ fourth),
      length-append (take 4 (drop 16 h)) (b'-' ∷ last),
      length-take 8 h,
      length-piece 4 8 h,
      length-piece 4 12 h,
      length-piece 4 16 h,
      length-drop 20 h,
    )

char-is_brace : (c : ℕ) → is_uuid_char c ≡ true → is_brace c ≡ false
char-is_brace c h = ground arith

char-is_colon : (c : ℕ) → is_uuid_char c ≡ true → (c == b':') ≡ false
char-is_colon c h = ground arith

pub uuid_text-chars : (value : ℕ) → all is_uuid_char (uuid_text value) ≡ true
unfolding uuid_text
uuid_text-chars value = hyphened-chars (hex 32 value) (hex-all 32 value)

pub length-uuid_text : (value : ℕ) → length (uuid_text value) ≡ 36
unfolding uuid_text
length-uuid_text value = length-hyphened (hex 32 value) (length-hex 32 value)

-- The UUID of its text.
pub parse_uuid-uuid_text : (value : ℕ) → value < 16 ^ 32 → parse_uuid (uuid_text value) ≡ some value
unfolding parse_uuid uuid_text
parse_uuid-uuid_text value h =
    rw
      (
        remove-absent b':' urn text refl no_colon,
        remove-absent b':' uuid text refl no_colon,
        strip_by-clean is_brace text no_brace,
        plain (hex 32 value) (hex-all 32 value),
        length-hex 32 value,
      )
      (int_16-hex 31 value h)
  where
    text : List ℕ
    text = uuid_text value

    urn : List ℕ
    urn = b'u' ∷ b'r' ∷ b'n' ∷ b':' ∷ []

    uuid : List ℕ
    uuid = b'u' ∷ b'u' ∷ b'i' ∷ b'd' ∷ b':' ∷ []

    no_colon : has b':' text ≡ false
    no_colon = all-none is_uuid_char (λ c. c == b':') char-is_colon text (uuid_text-chars value)

    no_brace : any is_brace text ≡ false
    no_brace = all-none is_uuid_char is_brace char-is_brace text (uuid_text-chars value)
