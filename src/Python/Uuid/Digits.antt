-- ===== src/Python/Uuid/Digits.antt =====
-- The digits of a number in base 16, and the number that is read from them.
use mathlib.Core.List.{append_assoc, append-nil}
use native.Mathlib.Numerals.{unary_clauses}
use connextion_z_luna.Prelude.{
  ℕ, zero, suc, Bool, true, false, ◌≡◌, refl, sym, ap, subst, ◌∙◌, ◌&&◌, ◌||◌, leb, ◌==◌, ◌+◌, ◌*◌,
  ◌/◌, ◌%◌, ◌^◌, ◌<◌, Option, none, some, List, [], ◌∷◌, ◌++◌, any, all, length, is_space, arith,
}
use connextion_z_luna.Python.Text.Laws.{strip_by-clean}
use connextion_z_luna.Python.Uuid.{
  hex_digit, hex, digit_value, digits, int_16, without_sign, without_prefix,
}

-- What `hex` writes: digits in lower case.
abbrev pub is_hex : ℕ → Bool
is_hex c = (leb b'0' c && leb c b'9') || (leb b'a' c && leb c b'f')

digit-hex : (d : ℕ) → d < 16 → (is_hex (hex_digit d) ≡ true) × (digit_value (hex_digit d) ≡ some d)
digit-hex d h = ground arith

pub all-append : (test : ℕ → Bool) (s t : List ℕ) → all test (s ++ t) ≡ (all test s && all test t)
all-append test [] t = refl
all-append test (c ∷ s) t = ground (arith, all-append test s t)

pub hex-all : (n value : ℕ) → all is_hex (hex n value) ≡ true
unfolding hex
hex-all zero value = refl
hex-all (suc n) value = ground (
  arith,
  all-append is_hex (hex n (value / 16)) (hex_digit (value % 16) ∷ []),
  hex-all n (value / 16),
  digit-hex (value % 16),
)

pub length-append : (s t : List ℕ) → length (s ++ t) ≡ length s + length t
length-append [] t = omega arith
length-append (c ∷ s) t = omega (arith, length-append s t)

pub length-hex : (n value : ℕ) → length (hex n value) ≡ n
unfolding hex
length-hex zero value = refl
length-hex (suc n) value = omega (
  arith,
  length-append (hex n (value / 16)) (hex_digit (value % 16) ∷ []),
  length-hex n (value / 16),
)

digits-digit :
    (start : ℕ) (after : Bool) (d : ℕ) (s : List ℕ)
    → d < 16
    → digits start after (hex_digit d ∷ s) ≡ digits (start * 16 + d) true s
unfolding digits
digits-digit start after d s h = ap (by_value start after (hex_digit d) s) (digit-hex d h).1
  where
    by_value : ℕ → Bool → ℕ → List ℕ → Option ℕ → Option ℕ
    by_value start after c s found = elim found [
      | some d ↦ digits (start * 16 + d) true s
      | none ↦ elim (c == b'_' && after) [ true ↦ digits start false s | false ↦ none ]
    ]

pow_suc : (n : ℕ) → 16 ^ suc n ≡ 16 ^ n * 16
pow_suc n = simp unary_clauses

-- What `hex` writes is read back, whatever follows.
digits-hex :
    (n value : ℕ) (s : List ℕ)
    → value < 16 ^ suc n
    → digits 0 false (hex (suc n) value ++ s) ≡ digits value true s
unfolding hex
digits-hex zero value s h =
    digits-digit 0 false (value % 16) s (omega arith)
    ∙ ap (λ v. digits v true s) (small value (subst (λ b. value < b) (pow_suc 0) h))
  where
    small : (v : ℕ) → v < 1 * 16 → 0 * 16 + v % 16 ≡ v
    small v h = omega arith
digits-hex (suc n) value s h =
    ap (digits 0 false) (append_assoc (hex (suc n) (value / 16)) (hex_digit (value % 16) ∷ []) s)
    ∙ digits-hex n (value / 16) (hex_digit (value % 16) ∷ s)
        (below (16 ^ suc n) (subst (λ b. value < b) (pow_suc (suc n)) h))
    ∙ digits-digit (value / 16) true (value % 16) s (omega arith)
    ∙ ap (λ v. digits v true s) (back value)
  where
    below : (b : ℕ) → value < b * 16 → value / 16 < b
    below b h = omega arith

    back : (v : ℕ) → v / 16 * 16 + v % 16 ≡ v
    back v = omega arith

pub all-none :
    (good bad : ℕ → Bool)
    → ((c : ℕ) → good c ≡ true → bad c ≡ false)
    → (s : List ℕ) → all good s ≡ true
    → any bad s ≡ false
all-none good bad f [] h = refl
all-none good bad f (c ∷ s) h = ground (arith, f c, all-none good bad f s)

without_sign-hex : (s : List ℕ) → all is_hex s ≡ true → without_sign s ≡ s
without_sign-hex [] h = refl
without_sign-hex (c ∷ s) h = ground arith

without_prefix-hex : (s : List ℕ) → all is_hex s ≡ true → without_prefix s ≡ s
without_prefix-hex [] h = refl
without_prefix-hex (c ∷ []) h = refl
without_prefix-hex (c ∷ d ∷ s) h = ground arith

hex-is_space : (c : ℕ) → is_hex c ≡ true → is_space c ≡ false
unfolding is_space
hex-is_space c h = ground arith

-- The number of a text in base 16.
pub int_16-hex : (n value : ℕ) → value < 16 ^ suc n → int_16 (hex (suc n) value) ≡ some value
unfolding int_16
int_16-hex n value h =
    ap (λ s. digits 0 false (without_prefix (without_sign s)))
      (strip_by-clean is_space s (all-none is_hex is_space hex-is_space s good))
    ∙ ap (λ s. digits 0 false (without_prefix s)) (without_sign-hex s good)
    ∙ ap (digits 0 false) (without_prefix-hex s good ∙ sym (append-nil s))
    ∙ digits-hex n value [] h
    ∙ refl
  where
    s : List ℕ
    s = hex (suc n) value

    good : all is_hex (hex (suc n) value) ≡ true
    good = hex-all (suc n) value
