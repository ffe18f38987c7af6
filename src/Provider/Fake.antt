-- ===== src/Provider/Fake.antt =====
-- backend/app/payments/fake_provider.py: the in-memory provider and its replay of operations. The
-- reference of a payment is a digest of the key, a parameter of the model; the flags that make
-- the provider fail are fields of its state.
pub mod Repeat
pub mod Idempotent
use Prim.Native.String.{◌++◌}
use connextion_z_luna.Prelude.{
  ℕ, ℤ, String, Bool, true, false, not, ◌&&◌, ◌||◌, ◌==◌, Option, none, some, List, [], ◌∷◌, ltb,
  is_blank, str_len, str_eq, eq_ℤ, any, if◌then◌else◌,
}
use connextion_z_luna.Errors.{Error, ProviderError, Result, ok, err, raise_if}
use connextion_z_luna.Exec.{Exec, pure, raise, lift, gets, modify, ◌>>=◌, ◌>>◌}
use connextion_z_luna.Provider.{
  ProviderStatus, ProviderResult, provider_status_index, provider_result, created, authorized,
  cancelled, refunded,
}

-- The names of the operations in `_execute`.
pub data OperationName : Type 0 where
  initialize authorize cancel refund : OperationName

abbrev operation_index : OperationName → ℕ
operation_index initialize = 0
operation_index authorize = 1
operation_index cancel = 2
operation_index refund = 3

-- The tuple of an operation's data: a reference, an amount and a currency, as far as it has them.
pub record RequestData : Type 0 where
  pub reference : Option String
  pub amount : Option ℤ
  pub currency : Option String

pub record StoredPayment : Type 0 where
  pub amount_minor_units : ℤ
  pub currency : String
  pub status : ProviderStatus

pub record Replay : Type 0 where
  pub operation : OperationName
  pub idempotency_key : String
  pub request : RequestData
  pub result : ProviderResult

pub record FakeProvider : Type 0 where
  pub is_unavailable : Bool
  pub authorization_fails : Bool
  pub payment_fails : Bool
  pub refund_fails : Bool
  pub payments : List (String × StoredPayment)
  pub operations : List Replay

abbrev pub opt_eq {ℓ} : {A : Type ℓ} → (A → A → Bool) → Option A → Option A → Bool
opt_eq eq none none = true
opt_eq eq (some a) (some b) = eq a b
opt_eq eq _ _ = false

abbrev pub same_request : RequestData → RequestData → Bool
same_request a b =
    opt_eq str_eq a.reference b.reference
    && opt_eq eq_ℤ a.amount b.amount
    && opt_eq str_eq a.currency b.currency

abbrev pub invalid_state : String → Error
invalid_state text = Error.provider_error (ProviderError.invalid_state text)

abbrev pub reused_key : Error
reused_key = invalid_state "Idempotency key was reused with different operation data"

-- `self._payments.get(reference)`; the latest entry is the first.
unfoldable pub find_payment : String → List (String × StoredPayment) → Option StoredPayment
find_payment reference [] = none
find_payment reference ((r, p) ∷ rest) =
    if str_eq r reference then some p else find_payment reference rest

unfoldable pub find_replay : OperationName → String → List Replay → Option Replay
find_replay name key [] = none
find_replay name key (r ∷ rest) =
    if operation_index r.operation == operation_index name && str_eq r.idempotency_key key
    then some r
    else find_replay name key rest

abbrev default_invalid_state : Error
default_invalid_state = invalid_state "Provider payment is in an invalid state"

-- `ProviderUnavailable()`.
abbrev pub unavailable_error : Error
unavailable_error =
    Error.provider_error (ProviderError.unavailable "Payment provider is unavailable" true)

unfoldable pub ensure_available : Exec FakeProvider (Unit {0})
ensure_available s = (raise_if s.is_unavailable unavailable_error, s)

abbrev known_payment : Option StoredPayment → Result StoredPayment
known_payment none = err (invalid_state "Unknown provider payment reference")
known_payment (some p) = ok p

unfoldable pub get_payment : String → Exec FakeProvider StoredPayment
get_payment reference s = (known_payment (find_payment reference s.payments), s)

unfoldable pub set_payment : String → StoredPayment → Exec FakeProvider (Unit {0})
set_payment reference p s = (ok tt, record s { payments = (reference, p) ∷ s.payments })

-- `_result`, for an operation of the key.
unfoldable pub result : String → ProviderStatus → ℤ → String → Option String → Result ProviderResult
result reference status amount currency key = provider_result (record {
  provider_name = "fake";
  payment_reference_id = reference;
  operation_id = elim key [ none ↦ none | some k ↦ some ("fake-op-" ++ k) ];
  status = status;
  amount_minor_units = amount;
  currency = currency;
  idempotency_key = key;
  failure_code = none;
  failure_message = none;
})

-- A fresh key runs the operation and stores its result.
unfoldable pub run_and_store :
    OperationName
    → String
    → RequestData
    → Exec FakeProvider ProviderResult
    → Exec FakeProvider ProviderResult
run_and_store name key request operation = do
  answer ← operation
  modify (λ s. record s {
    operations =
        record { operation = name; idempotency_key = key; request = request; result = answer }
        ∷ s.operations;
  })
  pure answer

unfoldable pub replay_or_run :
    Option Replay
    → OperationName
    → String
    → RequestData
    → Exec FakeProvider ProviderResult
    → Exec FakeProvider ProviderResult
replay_or_run none name key request operation = run_and_store name key request operation
replay_or_run (some previous) name key request operation =
    if same_request previous.request request then pure previous.result else raise reused_key

unfoldable pub execute :
    OperationName
    → String
    → RequestData
    → Exec FakeProvider ProviderResult
    → Exec FakeProvider ProviderResult
execute name key request operation = do
  lift (
      raise_if (is_blank key || ltb 128 (str_len key))
        (invalid_state "Invalid provider idempotency key"))
  ensure_available
  previous ← gets (λ s. find_replay name key s.operations)
  replay_or_run previous name key request operation

abbrev status_is : ProviderStatus → List ProviderStatus → Bool
status_is p statuses = any (λ q. provider_status_index p == provider_status_index q) statuses

abbrev mismatches : StoredPayment → ℤ → String → Bool
mismatches p amount currency = not (eq_ℤ p.amount_minor_units amount && str_eq p.currency currency)

-- The `operation` of each method, which `_execute` awaits for a fresh key.
unfoldable pub initialize_operation :
    String → ℤ → String → String → Exec FakeProvider ProviderResult
initialize_operation reference amount currency key = do
  set_payment reference
      (record { amount_minor_units = amount; currency = currency; status = created })
  lift (result reference created amount currency (some key))

unfoldable pub authorize_operation : String → ℤ → String → String → Exec FakeProvider ProviderResult
authorize_operation reference amount currency key = do
  p ← get_payment reference
  lift (
      raise_if (mismatches p amount currency)
        (invalid_state "Provider amount or currency does not match"))
  lift (raise_if (not (status_is p.status (created ∷ authorized ∷ []))) default_invalid_state)
  set_payment reference (record p { status = authorized })
  lift (result reference authorized amount currency (some key))

unfoldable pub cancel_operation : String → String → Exec FakeProvider ProviderResult
cancel_operation reference key = do
  p ← get_payment reference
  lift (raise_if (not (status_is p.status (created ∷ authorized ∷ []))) default_invalid_state)
  set_payment reference (record p { status = cancelled })
  lift (result reference cancelled p.amount_minor_units p.currency (some key))

unfoldable pub refund_operation : String → ℤ → String → String → Exec FakeProvider ProviderResult
refund_operation reference amount currency key = do
  p ← get_payment reference
  lift (
      raise_if (mismatches p amount currency)
        (invalid_state "Provider amount or currency does not match"))
  lift (raise_if (not (status_is p.status (authorized ∷ []))) default_invalid_state)
  set_payment reference (record p { status = refunded })
  lift (result reference refunded amount currency (some key))

-- `reference` is the digest of the key.
unfoldable pub initialize_payment : String → ℤ → String → String → Exec FakeProvider ProviderResult
initialize_payment reference amount currency key = do
  fails ← gets (λ s. s.payment_fails)
  lift (raise_if fails (Error.provider_error ProviderError.payment_failure))
  execute initialize key
      (record { reference = none; amount = some amount; currency = some currency })
      (initialize_operation reference amount currency key)

unfoldable pub authorize_hold : String → ℤ → String → String → Exec FakeProvider ProviderResult
authorize_hold reference amount currency key = do
  fails ← gets (λ s. s.authorization_fails)
  lift (raise_if fails (Error.provider_error ProviderError.authorization_failure))
  execute authorize key
      (record { reference = some reference; amount = some amount; currency = some currency })
      (authorize_operation reference amount currency key)

unfoldable pub cancel_hold : String → String → Exec FakeProvider ProviderResult
cancel_hold reference key =
    execute cancel key (record { reference = some reference; amount = none; currency = none })
      (cancel_operation reference key)

unfoldable pub refund_payment : String → ℤ → String → String → Exec FakeProvider ProviderResult
refund_payment reference amount currency key = do
  fails ← gets (λ s. s.refund_fails)
  lift (raise_if fails (Error.provider_error ProviderError.refund_failure))
  execute refund key
      (record { reference = some reference; amount = some amount; currency = some currency })
      (refund_operation reference amount currency key)

unfoldable pub retrieve_payment_status : String → Exec FakeProvider ProviderResult
retrieve_payment_status reference = do
  ensure_available
  p ← get_payment reference
  lift (result reference p.status p.amount_minor_units p.currency none)
