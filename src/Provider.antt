-- ===== src/Provider.antt =====
-- backend/app/payments/provider.py: what a payment provider answers, and its interface. A provider is
-- the record of the answers that it gives to the calls of one operation; each may be an error.
pub mod Fake
pub mod Factory
use connextion_z_luna.Prelude.{
  ℕ, ℤ, String, pos, negsuc, Bool, true, false, not, ◌&&◌, ◌||◌, ◌==◌, Option, none, some, ltb,
  is_blank, str_len, is_currency_code,
}
use connextion_z_luna.Errors.{Error, Result, ok, err, raise_if, ◌>>=◌, ◌>>◌}

pub data ProviderStatus : Type 0 where
  created pending authorized cancelled refunded released failed unknown : ProviderStatus

pub record ProviderResult : Type 0 where
  pub provider_name : String
  pub payment_reference_id : String
  pub operation_id : Option String
  pub status : ProviderStatus
  pub amount_minor_units : ℤ
  pub currency : String
  pub idempotency_key : Option String
  pub failure_code : Option String
  pub failure_message : Option String

abbrev is_not_positive : ℤ → Bool
is_not_positive (pos n) = n == 0
is_not_positive (negsuc n) = true

abbrev is_blank_key : Option String → Bool
is_blank_key none = false
is_blank_key (some key) = is_blank key

-- `ProviderResult.__post_init__`: a result that breaks one of these cannot be made.
unfoldable pub provider_result : ProviderResult → Result ProviderResult
provider_result r = do
  raise_if (is_blank r.provider_name || ltb 64 (str_len r.provider_name))
      (Error.value_error "provider_name must contain 1 to 64 characters")
  raise_if (is_blank r.payment_reference_id || ltb 255 (str_len r.payment_reference_id))
      (Error.value_error "payment_reference_id must contain 1 to 255 characters")
  raise_if (is_not_positive r.amount_minor_units)
      (Error.value_error "Provider amount must be a positive integer")
  raise_if (not (is_currency_code r.currency))
      (Error.value_error "Provider currency must be a three-letter uppercase code")
  raise_if (is_blank_key r.idempotency_key) (Error.value_error "idempotency_key must not be empty")
  ok r

pub record PaymentProvider : Type 0 where
  pub name : String
  pub initialize_payment : ℤ → String → String → Result ProviderResult
  pub authorize_hold : String → ℤ → String → String → Result ProviderResult
  pub cancel_hold : String → String → Result ProviderResult
  pub refund_payment : String → ℤ → String → String → Result ProviderResult
  pub retrieve_payment_status : String → Result ProviderResult

abbrev pub provider_status_index : ProviderStatus → ℕ
provider_status_index ProviderStatus.created = 0
provider_status_index ProviderStatus.pending = 1
provider_status_index ProviderStatus.authorized = 2
provider_status_index ProviderStatus.cancelled = 3
provider_status_index ProviderStatus.refunded = 4
provider_status_index ProviderStatus.released = 5
provider_status_index ProviderStatus.failed = 6
provider_status_index ProviderStatus.unknown = 7
