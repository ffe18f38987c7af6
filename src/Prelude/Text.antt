-- ===== src/Prelude/Text.antt =====
-- Python's text operations that the validations use. A `String` is its list of characters.
use Prim.Native.Nat.{ℕ, ◌+◌}
use Prim.Native.Char.{code}
use Prim.Native.String.{String}
use mathlib.Core.Path.{◌≡◌, refl}
use mathlib.Core.Bool.{Bool, true, false, ◌&&◌, ◌||◌}
use mathlib.Core.Option.{Option, none, some}
use text.Mathlib.Text.{◌==◌ as text_eq}
use text.Mathlib.TextEquality.{eq_iff}
use connextion_z_luna.Prelude.Tests.{leb, ltb, ◌==◌, if◌then◌else◌}

-- `s == t`.
abbrev pub str_eq : String → String → Bool
str_eq = text_eq

pub str_eq_refl : (s : String) → str_eq s s ≡ true
str_eq_refl s = (eq_iff s s).1 refl

pub str_eq_sound : (s t : String) → str_eq s t ≡ true → s ≡ t
str_eq_sound s t = (eq_iff s t).0

-- `len(s)`, in characters.
unfoldable pub str_len : String → ℕ
str_len String.[] = 0
str_len (String.◌∷◌ c s) = str_len s + 1

unfoldable pub all_chars : (ℕ → Bool) → String → Bool
all_chars test String.[] = true
all_chars test (String.◌∷◌ c s) = test (code c) && all_chars test s

-- The characters that `str.strip` removes.
unfoldable pub is_space : ℕ → Bool
is_space c =
    (leb 9 c && leb c 13)
    || (leb 28 c && leb c 32)
    || c == 133
    || c == 160
    || c == 5760
    || (leb 8192 c && leb c 8202)
    || c == 8232
    || c == 8233
    || c == 8239
    || c == 8287
    || c == 12288

-- `not s.strip()`.
unfoldable pub is_blank : String → Bool
unfolding all_chars is_space
is_blank s = all_chars is_space s

-- `"A" <= c <= "Z"`.
unfoldable pub is_upper_ascii : ℕ → Bool
is_upper_ascii c = leb b'A' c && leb c b'Z'

-- The full match of `[A-Z]{3}`.
unfoldable pub is_currency_code : String → Bool
unfolding str_len all_chars is_upper_ascii
is_currency_code s = str_len s == 3 && all_chars is_upper_ascii s

-- A nullable text equal to a given text.
abbrev pub is_text : Option String → String → Bool
is_text none t = false
is_text (some s) t = str_eq s t

-- Two nullable texts compared by `==`.
abbrev pub opt_text_eq : Option String → Option String → Bool
opt_text_eq none none = true
opt_text_eq (some s) (some t) = str_eq s t
opt_text_eq _ _ = false

-- `not s`, for a nullable text.
abbrev pub is_falsy : Option String → Bool
is_falsy none = true
is_falsy (some s) = str_eq s ""

abbrev pub is_empty : String → Bool
is_empty String.[] = true
is_empty (String.◌∷◌ c s) = false

unfoldable pub lstrip : String → String
lstrip String.[] = String.[]
lstrip (String.◌∷◌ c s) = if is_space (code c) then lstrip s else String.◌∷◌ c s

unfoldable pub rstrip : String → String
rstrip String.[] = String.[]
rstrip (String.◌∷◌ c s) =
    let rest = rstrip s in
    if is_empty rest && is_space (code c) then String.[] else String.◌∷◌ c rest

-- `s.strip()`.
unfoldable pub strip : String → String
unfolding lstrip rstrip is_space
strip s = rstrip (lstrip s)

-- `s < t`, by code points.
unfoldable pub str_ltb : String → String → Bool
str_ltb s String.[] = false
str_ltb String.[] (String.◌∷◌ d t) = true
str_ltb (String.◌∷◌ c s) (String.◌∷◌ d t) =
    ltb (code c) (code d) || (code c == code d && str_ltb s t)
