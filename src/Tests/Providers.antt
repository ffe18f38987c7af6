-- ===== src/Tests/Providers.antt =====
-- Runs of backend/app/payments/fake_provider.py.
use connextion_z_luna.Prelude.{
  pos, false, ◌≡◌, refl, none, some, [], ◌∷◌, is_blank, str_len, all_chars, is_space,
  is_currency_code, is_upper_ascii,
}
use connextion_z_luna.Errors.{ok, err}
use connextion_z_luna.Exec.{◌>>=◌}
use connextion_z_luna.Provider.{ProviderResult, ProviderStatus, provider_result}
use connextion_z_luna.Provider.Fake.{
  FakeProvider, OperationName, ensure_available, find_payment, find_replay, get_payment,
  set_payment, result, run_and_store, replay_or_run, execute, authorize_operation, authorize_hold,
  reused_key,
}
use connextion_z_luna.Provider.Fake.Idempotent.{
  authorizing, call, call-again, authorize_hold-conflict,
}

abbrev initialized : FakeProvider
initialized = record {
  is_unavailable = false;
  authorization_fails = false;
  payment_fails = false;
  refund_fails = false;
  payments =
      (
        "reference",
        record { amount_minor_units = pos 5000; currency = "USD"; status = ProviderStatus.created },
      )
      ∷ [];
  operations = [];
}

abbrev answer : ProviderResult
answer = record {
  provider_name = "fake";
  payment_reference_id = "reference";
  operation_id = some "fake-op-key";
  status = ProviderStatus.authorized;
  amount_minor_units = pos 5000;
  currency = "USD";
  idempotency_key = some "key";
  failure_code = none;
  failure_message = none;
}

abbrev held : FakeProvider
held = record initialized {
  payments =
      (
        "reference",
        record {
          amount_minor_units = pos 5000;
          currency = "USD";
          status = ProviderStatus.authorized;
        },
      )
      ∷ initialized.payments;
  operations =
      record {
        operation = OperationName.authorize;
        idempotency_key = "key";
        request = record {
          reference = some "reference";
          amount = some (pos 5000);
          currency = some "USD";
        };
        result = answer;
      }
      ∷ [];
}

authorizes : authorize_hold "reference" (pos 5000) "USD" "key" initialized ≡ (ok answer, held)
unfolding authorize_hold execute ensure_available find_replay replay_or_run run_and_store
    authorize_operation get_payment find_payment set_payment result provider_result ◌>>=◌ is_blank
    str_len all_chars is_space is_currency_code is_upper_ascii
authorizes = refl

call-again_example : call (authorizing "reference" (pos 5000) "USD" "key") held ≡ (ok answer, held)
call-again_example =
    call-again (authorizing "reference" (pos 5000) "USD" "key") initialized answer held authorizes

authorize_hold-conflict_example :
    authorize_hold "reference" (pos 6000) "USD" "key" held ≡ (err reused_key, held)
authorize_hold-conflict_example =
    authorize_hold-conflict "reference" "reference" (pos 5000) (pos 6000) "USD" "USD" "key"
      initialized answer held authorizes refl
