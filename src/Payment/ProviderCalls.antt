-- ===== src/Payment/ProviderCalls.antt =====
-- The provider-bound operations of backend/services/collaboration_payment_service.py, lines 98 to 387.
use connextion_z_luna.Prelude.{
  ℕ, String, Bool, false, not, ◌&&◌, ◌||◌, ◌==◌, Option, none, some, List, [], ◌∷◌, is_none,
  is_some, is_text, opt_text_eq, str_eq, eq_ℤ, any, if◌then◌else◌,
}
use connextion_z_luna.Errors.{Error, Result, raise_if, message}
use connextion_z_luna.Exec.{Exec, pure, raise, lift, gets, ◌>>=◌, ◌>>◌}
use connextion_z_luna.Provider.{
  ProviderStatus, ProviderResult, PaymentProvider, provider_status_index,
}
use connextion_z_luna.Payment.Model.{
  Collaboration, CollaborationPayment, CollaborationStatus, CollaborationPaymentState, state_in,
  status_in, state_value, pending, authorized_held, collaboration_active, release_pending, released,
  refunded, disputed, declined,
}
use connextion_z_luna.Payment.Session.{Session, set_attributes, save, get_by_provider_reference}
use connextion_z_luna.Payment.Audit.{
  hold_operation, validate_provider_idempotency_key, require_provider_reference, require_party,
  require_refund_audit,
}
use connextion_z_luna.Payment.Service.{
  validate_relationship, get_locked_relationship, get_locked_relationship_if_present,
  activate_held_payment_if_eligible, is_open,
}
use connextion_z_luna.Payment.Hold.{authorize_hold, is_final}
use connextion_z_luna.Payment.Resolution.{
  keep, refundable, authorize_refund, cancel_for_collaboration_resolution,
}

abbrev pub provider_status_in : ProviderStatus → List ProviderStatus → Bool
provider_status_in p statuses =
    any (λ q. provider_status_index p == provider_status_index q) statuses

-- `_validate_provider_result`; the text of an unexpected status is left out of its message.
unfoldable pub validate_provider_result :
    PaymentProvider
    → ProviderResult
    → List ProviderStatus
    → CollaborationPayment
    → Option String
    → Exec Session (Unit {0})
validate_provider_result provider r expected p key = do
  lift (
      raise_if (not (str_eq r.provider_name provider.name))
        (Error.value_error "Provider result does not match selected provider"))
  lift (
      raise_if
        (not (eq_ℤ r.amount_minor_units p.amount_minor_units) || not (str_eq r.currency p.currency))
        (Error.value_error "Provider result amount or currency does not match payment"))
  lift (
      raise_if
        (is_some p.provider_reference && not (is_text p.provider_reference r.payment_reference_id))
        (Error.value_error "Provider result reference does not match payment"))
  lift (
      raise_if (not (provider_status_in r.status expected))
        (Error.value_error "Provider returned a status that the operation does not allow"))
  lift (
      raise_if (is_some key && (is_some r.failure_code || is_some r.failure_message))
        (Error.value_error "Provider returned failure details for a successful operation"))
  lift (
      raise_if (not (opt_text_eq r.idempotency_key key))
        (Error.value_error "Provider result idempotency key does not match request"))

-- `payment.payment_provider != self.provider.name`.
abbrev other_provider : PaymentProvider → CollaborationPayment → Result (Unit {0})
other_provider provider p =
    raise_if (not (is_text p.payment_provider provider.name))
      (Error.value_error "Payment belongs to a different provider")

abbrev is_other_owner : Option CollaborationPayment → CollaborationPayment → Bool
is_other_owner none p = false
is_other_owner (some owner) p = not (owner.id == p.id)

-- The row with the reference that the provider gave, flushed.
unfoldable pub bind_reference :
    PaymentProvider → ProviderResult → CollaborationPayment → Exec Session CollaborationPayment
bind_reference provider r p = do
  let q = record p {
    payment_provider = some provider.name;
    provider_reference = some r.payment_reference_id;
  }
  set_attributes q
  save q

unfoldable pub initialize_provider_payment :
    PaymentProvider → ℕ → ℕ → String → Exec Session ProviderResult
initialize_provider_payment provider collaboration_id actor key = do
  lift (validate_provider_idempotency_key key)
  (collaboration, payment) ← get_locked_relationship collaboration_id
  validate_relationship collaboration payment
  lift (
      raise_if (not (actor == payment.payer_user_id))
        (Error.permission_error "Only the payment payer can initialize payment"))
  lift (
      raise_if (not (state_in payment.state (pending ∷ [])))
        (Error.value_error "Only a pending payment can be initialized"))
  r ← lift (provider.initialize_payment payment.amount_minor_units payment.currency key)
  validate_provider_result provider r (ProviderStatus.created ∷ ProviderStatus.pending ∷ []) payment
      (some key)
  lift (
      raise_if
        (is_some payment.payment_provider
          && (not (is_text payment.payment_provider provider.name)
              || not (is_text payment.provider_reference r.payment_reference_id)))
        (Error.value_error "Provider reference is already bound to another payment"))
  owner ← gets (get_by_provider_reference provider.name r.payment_reference_id)
  lift (
      raise_if (is_other_owner owner payment)
        (Error.value_error "Provider reference is already bound to another payment"))
  bound ← bind_reference provider r payment
  pure r

-- A payment that has left `PENDING`: the same key again, or a refusal.
unfoldable pub repeat_provider_hold :
    PaymentProvider
    → Collaboration
    → CollaborationPayment
    → String
    → Exec Session CollaborationPayment
repeat_provider_hold provider c p key = do
  lift (
      raise_if (is_final p.state) (
        Error.value_error (
          message "Cannot authorize provider hold for payment in " (state_value p.state) " state")))
  reference ← lift (require_provider_reference p)
  lift (other_provider provider p)
  lift (
      raise_if
        (not (is_text p.hold_idempotency_key key)
          || is_none p.authorized_at
          || not (is_text p.authorized_by_operation hold_operation))
        (Error.value_error "Payment was already authorized with another idempotency key"))
  activate_held_payment_if_eligible c p

-- A pending payment: the provider first, then the internal hold.
unfoldable pub first_provider_hold :
    PaymentProvider → CollaborationPayment → ℕ → ℕ → String → Exec Session CollaborationPayment
first_provider_hold provider p collaboration_id payer key = do
  reference ← lift (require_provider_reference p)
  lift (other_provider provider p)
  r ← lift (provider.authorize_hold reference p.amount_minor_units p.currency key)
  validate_provider_result provider r (ProviderStatus.authorized ∷ []) p (some key)
  lift (
      raise_if (is_none r.operation_id)
        (Error.value_error "Provider authorization is missing its operation reference"))
  authorize_hold (record {
    collaboration_id = collaboration_id;
    payer_user_id = payer;
    idempotency_key = key;
    authorization_reference = r.operation_id;
  })

unfoldable pub authorize_hold_with_provider :
    PaymentProvider → ℕ → ℕ → String → Exec Session CollaborationPayment
authorize_hold_with_provider provider collaboration_id payer key = do
  lift (validate_provider_idempotency_key key)
  (collaboration, payment) ← get_locked_relationship collaboration_id
  validate_relationship collaboration payment
  lift (
      raise_if (not (payer == payment.payer_user_id))
        (Error.permission_error "Only the payment payer can authorize a hold"))
  lift (
      raise_if (state_in payment.state (pending ∷ []) && not (is_open collaboration.status))
        (Error.value_error "Cannot authorize a provider hold for a resolved collaboration"))
  if not (state_in payment.state (pending ∷ []))
      then repeat_provider_hold provider collaboration payment key
      else first_provider_hold provider payment collaboration_id payer key

abbrev after_completion : CollaborationPaymentState → Bool
after_completion t = state_in t (CollaborationPaymentState.completed ∷ release_pending ∷ [])

-- The provider's refund after completion, its cancellation before.
unfoldable pub reverse_at_provider :
    PaymentProvider → CollaborationPayment → String → String → Result ProviderResult
reverse_at_provider provider p reference key =
    if after_completion p.state
    then provider.refund_payment reference p.amount_minor_units p.currency key
    else provider.cancel_hold reference key

abbrev reversal_status : CollaborationPaymentState → List ProviderStatus
reversal_status t =
    if after_completion t then ProviderStatus.refunded ∷ [] else ProviderStatus.cancelled ∷ []

unfoldable pub cancel_bound_hold :
    PaymentProvider → CollaborationPayment → ℕ → String → Exec Session (Option CollaborationPayment)
cancel_bound_hold provider p collaboration_id key = do
  reference ← lift (require_provider_reference p)
  lift (other_provider provider p)
  r ← lift (reverse_at_provider provider p reference key)
  validate_provider_result provider r (reversal_status p.state) p (some key)
  cancel_for_collaboration_resolution collaboration_id

abbrev cancellable : List CollaborationPaymentState
cancellable =
    pending ∷ authorized_held ∷ collaboration_active ∷ CollaborationPaymentState.completed
    ∷ release_pending ∷ []

unfoldable pub cancel_unresolved_hold :
    PaymentProvider → CollaborationPayment → ℕ → String → Exec Session (Option CollaborationPayment)
cancel_unresolved_hold provider p collaboration_id key =
    if state_in p.state (CollaborationPaymentState.cancelled ∷ refunded ∷ disputed ∷ [])
    then cancel_for_collaboration_resolution collaboration_id
    else if state_in p.state (released ∷ [])
    then raise (Error.value_error "A released payment cannot be cancelled or reversed")
    else if not (state_in p.state cancellable)
    then raise (
        Error.value_error
          (message "Payment in " (state_value p.state) " state cannot be cancelled by provider"))
    else if state_in p.state (pending ∷ []) && is_none p.provider_reference
    then cancel_for_collaboration_resolution collaboration_id
    else cancel_bound_hold provider p collaboration_id key

unfoldable pub cancel_hold_if_present :
    PaymentProvider
    → Collaboration
    → Option CollaborationPayment
    → ℕ
    → String
    → Exec Session (Option CollaborationPayment)
cancel_hold_if_present provider c none collaboration_id key = pure none
cancel_hold_if_present provider c (some p) collaboration_id key = do
  validate_relationship c p
  lift (
      raise_if (not (status_in c.status (CollaborationStatus.cancelled ∷ declined ∷ [])))
        (Error.value_error "Provider hold cancellation requires a resolved collaboration"))
  cancel_unresolved_hold provider p collaboration_id key

unfoldable pub cancel_provider_hold :
    PaymentProvider → ℕ → String → Exec Session (Option CollaborationPayment)
cancel_provider_hold provider collaboration_id key = do
  lift (validate_provider_idempotency_key key)
  (collaboration, payment) ← get_locked_relationship_if_present collaboration_id
  cancel_hold_if_present provider collaboration payment collaboration_id key

unfoldable pub refund_unrefunded :
    PaymentProvider → CollaborationPayment → ℕ → String → Exec Session CollaborationPayment
refund_unrefunded provider p collaboration_id key = do
  lift (
      raise_if (not (state_in p.state refundable) || is_none p.authorized_at) (
        Error.value_error
          (message "Payment in " (state_value p.state) " state cannot be refunded")))
  reference ← lift (require_provider_reference p)
  lift (other_provider provider p)
  r ← lift (provider.refund_payment reference p.amount_minor_units p.currency key)
  validate_provider_result provider r (ProviderStatus.refunded ∷ []) p (some key)
  authorize_refund collaboration_id

unfoldable pub refund_with_provider :
    PaymentProvider → ℕ → String → Exec Session CollaborationPayment
refund_with_provider provider collaboration_id key = do
  lift (validate_provider_idempotency_key key)
  (collaboration, payment) ← get_locked_relationship collaboration_id
  validate_relationship collaboration payment
  if state_in payment.state (refunded ∷ [])
      then keep (require_refund_audit payment) payment
      else refund_unrefunded provider payment collaboration_id key

abbrev all_statuses : List ProviderStatus
all_statuses =
    ProviderStatus.created ∷ ProviderStatus.pending ∷ ProviderStatus.authorized
    ∷ ProviderStatus.cancelled ∷ ProviderStatus.refunded ∷ ProviderStatus.released
    ∷ ProviderStatus.failed ∷ ProviderStatus.unknown ∷ []

unfoldable pub retrieve_provider_payment_status :
    PaymentProvider → ℕ → ℕ → Exec Session ProviderResult
retrieve_provider_payment_status provider collaboration_id actor = do
  (collaboration, payment) ← get_locked_relationship collaboration_id
  validate_relationship collaboration payment
  lift (require_party payment actor)
  reference ← lift (require_provider_reference payment)
  lift (other_provider provider payment)
  r ← lift (provider.retrieve_payment_status reference)
  validate_provider_result provider r all_statuses payment none
  pure r
