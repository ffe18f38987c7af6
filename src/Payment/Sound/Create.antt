-- ===== src/Payment/Sound/Create.antt =====
-- The soundness of a new row.
use connextion_z_luna.Prelude.{
  ℕ, ℤ, String, pos, negsuc, Bool, true, false, not, ◌≡◌, refl, ◌&&◌, ◌==◌, leb, all_chars,
  is_upper_ascii, is_currency_code, is_between, arith,
}
use Prim.Native.Char.{code}
use connextion_z_luna.Errors.{ok}
use connextion_z_luna.Payment.Constraints.{
  is_upper, is_positive, party_constraints, hold_constraints, audit_constraints,
  dispute_constraints,
}
use connextion_z_luna.Payment.Audit.{max_minor_units, validate_amount_and_currency}
use connextion_z_luna.Payment.Service.{new_payment}
use connextion_z_luna.Payment.Keeps.Create.{Creates, Creates-of}
use connextion_z_luna.Payment.Sound.{IsSound, exclusive}

abbrev not_lower : ℕ → Bool
not_lower c = not (leb b'a' c && leb c b'z')

upper_is_not_lower : (c : ℕ) → is_upper_ascii c ≡ true → not_lower c ≡ true
unfolding is_upper_ascii
upper_is_not_lower c h = ground arith

all_chars-implies :
    (f g : ℕ → Bool)
    → ((c : ℕ) → f c ≡ true → g c ≡ true)
    → (s : String) → all_chars f s ≡ true
    → all_chars g s ≡ true
unfolding all_chars
all_chars-implies f g k String.[] h = refl
all_chars-implies f g k (String.◌∷◌ c s) h =
    let first = k (code c) in let rest = all_chars-implies f g k s in ground arith

-- The service's currency codes pass the table's test.
is_currency_code-is_upper : (s : String) → is_currency_code s ≡ true → is_upper s ≡ true
unfolding is_currency_code is_upper
is_currency_code-is_upper s h =
    let letters = all_chars-implies is_upper_ascii not_lower upper_is_not_lower s in ground arith

is_between-is_positive : (a : ℤ) → is_between 1 max_minor_units a ≡ true → is_positive a ≡ true
is_between-is_positive (pos n) h = ground arith
is_between-is_positive (negsuc n) h = cc

new_payment-IsSound :
    (id collaboration_id payer recipient : ℕ) (amount : ℤ) (currency : String)
    → validate_amount_and_currency amount currency ≡ ok tt
    → (recipient == payer) ≡ false
    → IsSound (record (new_payment collaboration_id payer recipient amount currency) { id = id })
unfolding validate_amount_and_currency party_constraints hold_constraints audit_constraints
    dispute_constraints exclusive
new_payment-IsSound id collaboration_id payer recipient amount currency valid different =
    let upper = is_currency_code-is_upper currency in
    let positive = is_between-is_positive amount in
    record { party = ground arith; hold = refl; audit = refl; dispute = refl; excludes = refl }

pub IsSound-Creates : Creates IsSound
IsSound-Creates = Creates-of new_payment-IsSound
