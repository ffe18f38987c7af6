-- ===== src/Provider/Factory.antt =====
-- backend/app/payments/factory.py: the provider that the settings select. The digest by which the fake
-- provider names a payment is a parameter.
use connextion_z_luna.Prelude.{String, Bool, true, false, []}
use connextion_z_luna.Errors.{Error, ProviderError, Result, ok, err, raise_if, ◌>>◌}
use connextion_z_luna.Provider.{ProviderResult, PaymentProvider}
use connextion_z_luna.Provider.Fake.{FakeProvider}
use connextion_z_luna.Provider.Fake as Fake

pub data Environment : Type 0 where
  development test local staging production : Environment

pub data ProviderChoice : Type 0 where
  disabled fake : ProviderChoice

-- The settings that the choice reads.
pub record Settings : Type 0 where
  pub real_money_enabled : Bool
  pub provider : ProviderChoice
  pub environment : Environment

abbrev pub is_production : Environment → Bool
is_production production = true
is_production _ = false

abbrev pub disabled_answer : Result ProviderResult
disabled_answer = err (
    Error.provider_error
      (ProviderError.unavailable "Collaboration payment provider is disabled" false))

-- `DisabledPaymentProvider`.
abbrev pub disabled_provider : PaymentProvider
disabled_provider = record {
  name = "disabled";
  initialize_payment = λ amount currency key. disabled_answer;
  authorize_hold = λ reference amount currency key. disabled_answer;
  cancel_hold = λ reference key. disabled_answer;
  refund_payment = λ reference amount currency key. disabled_answer;
  retrieve_payment_status = λ reference. disabled_answer;
}

-- The answers of a fake provider in a state.
abbrev pub fake_provider : (String → String) → FakeProvider → PaymentProvider
fake_provider digest s = record {
  name = "fake";
  initialize_payment =
      λ amount currency key. (Fake.initialize_payment (digest key) amount currency key s).0;
  authorize_hold =
      λ reference amount currency key. (Fake.authorize_hold reference amount currency key s).0;
  cancel_hold = λ reference key. (Fake.cancel_hold reference key s).0;
  refund_payment =
      λ reference amount currency key. (Fake.refund_payment reference amount currency key s).0;
  retrieve_payment_status = λ reference. (Fake.retrieve_payment_status reference s).0;
}

-- `FakePaymentProvider()`.
abbrev pub new_fake_provider : FakeProvider
new_fake_provider = record {
  is_unavailable = false;
  authorization_fails = false;
  payment_fails = false;
  refund_fails = false;
  payments = [];
  operations = [];
}

abbrev pub provider_for : (String → String) → ProviderChoice → Bool → Result PaymentProvider
provider_for digest disabled in_production = ok disabled_provider
provider_for digest fake in_production =
    raise_if in_production
      (Error.value_error "The fake collaboration payment provider cannot be selected in production")
    >> ok (fake_provider digest new_fake_provider)

unfoldable pub get_payment_provider : (String → String) → Settings → Result PaymentProvider
get_payment_provider digest settings =
    raise_if settings.real_money_enabled (
      Error.value_error
        "Real-money collaboration payments are not supported by any configured provider")
    >> provider_for digest settings.provider (is_production settings.environment)
