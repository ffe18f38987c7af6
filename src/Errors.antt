-- ===== src/Errors.antt =====
-- The exceptions that the services raise, and the result of a call that may raise.
use Prim.Native.String.{◌++◌}
use connextion_z_luna.Prelude.{ℕ, String, Bool, true, false}

-- `PaymentProviderError` and its subclasses of backend/app/payments/provider.py.
pub data ProviderError : Type 0 where
  authorization_failure payment_failure refund_failure : ProviderError
  unavailable : String → Bool → ProviderError
  invalid_state : String → ProviderError
  duplicate_operation : ProviderError

-- `integrity_error` is the database's refusal of a flush, `data_error` of a number that its column
-- does not hold, `lookup_error` a missing key or index,
-- `history_unavailable` is `PaidImpressionHistoryUnavailable` of
-- backend/repositories/paid_impression_history_repository.py.
pub data Error : Type 0 where
  value_error permission_error : String → Error
  provider_error : ProviderError → Error
  integrity_error data_error lookup_error overflow_error zero_division_error not_implemented_error :
      Error
  history_unavailable : String → Error
  rate_limited : ℕ → Error

-- How a validation ends: with the exception, or with its value.
pub data Result {ℓ} (A : Type ℓ) : Type ℓ where
  err : Error → Result A
  ok : A → Result A

module _ {ℓ κ} {A : Type ℓ} {B : Type κ} where
  infixl 10 ◌>>=◌
  abbrev pub ◌>>=◌ : Result A → (A → Result B) → Result B
  err raised >>= next = err raised
  ok value >>= next = next value

infixl 10 ◌>>◌
abbrev pub ◌>>◌ {ℓ} : {B : Type ℓ} → Result (Unit {0}) → Result B → Result B
check >> rest = check >>= λ _. rest

-- `if test: raise error`.
abbrev pub raise_if : Bool → Error → Result (Unit {0})
raise_if false e = ok tt
raise_if true e = err e

-- An f-string with one value in it.
unfoldable pub message : String → String → String → String
message before value after = before ++ value ++ after

-- Whether a call returns.
abbrev pub is_ok {ℓ} : {A : Type ℓ} → Result A → Bool
is_ok (err e) = false
is_ok (ok a) = true
