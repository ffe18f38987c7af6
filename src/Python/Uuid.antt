-- ===== src/Python/Uuid.antt =====
-- `uuid.UUID`: its text, and its parser with what that accepts. A UUID is its 128-bit number.
pub mod Digits
pub mod Laws
use connextion_z_luna.Prelude.{
  ℕ, zero, suc, Bool, true, false, not, ◌&&◌, ◌||◌, ltb, leb, ◌==◌, ◌+◌, ◌-◌, ◌*◌, ◌/◌, ◌%◌, Option,
  none, some, List, [], ◌∷◌, ◌++◌, take, filter, length, is_space, if◌then◌else◌,
}
use connextion_z_luna.Python.Text.{starts_with, remove, strip_by}

abbrev pub drop {ℓ} : {A : Type ℓ} → ℕ → List A → List A
drop zero xs = xs
drop (suc n) [] = []
drop (suc n) (x ∷ xs) = drop n xs

-- A digit of a number below 16, as `%x` writes it.
abbrev pub hex_digit : ℕ → ℕ
hex_digit d = if ltb d 10 then b'0' + d else b'a' + (d - 10)

-- `'%0nx' % value`, for a value of `n` digits at most.
unfoldable pub hex : ℕ → ℕ → List ℕ
hex zero value = []
hex (suc n) value = hex n (value / 16) ++ hex_digit (value % 16) ∷ []

-- Eight, four, four, four and twelve digits.
abbrev pub hyphened : List ℕ → List ℕ
hyphened h =
    take 8 h
    ++ (b'-'
        ∷ (take 4 (drop 8 h)
            ++ (b'-'
                ∷ (take 4 (drop 12 h) ++ (b'-' ∷ (take 4 (drop 16 h) ++ (b'-' ∷ drop 20 h)))))))

-- `str(UUID(int=value))`.
unfoldable pub uuid_text : ℕ → List ℕ
unfolding hex
uuid_text value = hyphened (hex 32 value)

-- The value of a digit in base 16, of either case.
abbrev pub digit_value : ℕ → Option ℕ
digit_value c =
    if leb b'0' c && leb c b'9'
    then some (c - b'0')
    else if leb b'a' c && leb c b'f'
    then some (c - b'a' + 10)
    else if leb b'A' c && leb c b'F'
    then some (c - b'A' + 10)
    else none

-- The digits of `int(s, 16)`, where one underscore may stand between two digits; `after_digit` says
-- that the character before was a digit.
unfoldable pub digits : ℕ → Bool → List ℕ → Option ℕ
digits value after_digit [] = if after_digit then some value else none
digits value after_digit (c ∷ s) = elim (digit_value c) [
  | some d ↦ digits (value * 16 + d) true s
  | none ↦ elim (c == b'_' && after_digit) [ true ↦ digits value false s | false ↦ none ]
]

abbrev pub without_sign : List ℕ → List ℕ
without_sign [] = []
without_sign (c ∷ s) = if c == b'+' then s else c ∷ s

abbrev is_x : ℕ → Bool
is_x c = c == b'x' || c == b'X'

abbrev without_underscore : List ℕ → List ℕ
without_underscore [] = []
without_underscore (c ∷ s) = if c == b'_' then s else c ∷ s

-- The prefix `0x`, which an underscore may follow.
abbrev pub without_prefix : List ℕ → List ℕ
without_prefix [] = []
without_prefix (c ∷ []) = c ∷ []
without_prefix (c ∷ d ∷ s) = if c == b'0' && is_x d then without_underscore s else c ∷ d ∷ s

-- `int(s, 16)`, for a text of ASCII characters without `-`.
unfoldable pub int_16 : List ℕ → Option ℕ
unfolding digits strip_by is_space
int_16 s = digits 0 false (without_prefix (without_sign (strip_by is_space s)))

abbrev pub is_brace : ℕ → Bool
is_brace c = c == b'{' || c == b'}'

-- `UUID(text).int`, or none where it raises ValueError.
unfoldable pub parse_uuid : List ℕ → Option ℕ
unfolding int_16 remove strip_by
parse_uuid text =
    let plain = strip_by is_brace (
      remove (b'u' ∷ b'u' ∷ b'i' ∷ b'd' ∷ b':' ∷ [])
        (remove (b'u' ∷ b'r' ∷ b'n' ∷ b':' ∷ []) text)) in
    let number = filter (λ c. not (c == b'-')) plain in
    if length number == 32 then int_16 number else none
