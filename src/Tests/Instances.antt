-- ===== src/Tests/Instances.antt =====
-- An instance of each theorem on the histories and the refusals of the payment service.
use connextion_z_luna.Prelude.{
  ◌↔◌, ◌&&◌, pos, true, false, ◌≡◌, refl, subst, none, some, List, [], ◌∷◌, All,
}
use connextion_z_luna.Errors.{Error, ProviderError, Result, ok, err}
use connextion_z_luna.Exec.Returns.{ok_injective}
use connextion_z_luna.Provider.{ProviderResult, ProviderStatus, PaymentProvider}
use connextion_z_luna.Payment.Model.{
  state_in, CollaborationPayment, CollaborationStatus, CollaborationPaymentState,
}
use connextion_z_luna.Payment.Constraints.{
  check_constraints, party_constraints, hold_constraints, audit_constraints, dispute_constraints,
  is_upper,
}
use connextion_z_luna.Payment.Session.{Session, get_for_collaboration}
use connextion_z_luna.Payment.Service.{new_payment}
use connextion_z_luna.Payment.Dispute.{transition_by_party}
use connextion_z_luna.Payment.ProviderCalls.{
  initialize_provider_payment, refund_with_provider, authorize_hold_with_provider,
}
use connextion_z_luna.Payment.Calls.{Event, served, Call, history}
use connextion_z_luna.Payment.Sound.{IsSound, exclusive}
use connextion_z_luna.Payment.History.Origin.{HasPast, history-HasPast}
use connextion_z_luna.Payment.History.Settled.{IsFrozen, history-IsFrozen}
use connextion_z_luna.Payment.History.Constrained.{is_paid_twice, history-is_paid_twice}
use connextion_z_luna.Payment.History.Released.{is_paid_unaudited, history-is_paid_unaudited}
use connextion_z_luna.Payment.Refusal.{Refuses}
use connextion_z_luna.Payment.Refusal.Party.{transition_by_party-Refuses}
use connextion_z_luna.Payment.Refusal.Provider.{
  IsUnrefunded, is_answer_for, refund_with_provider-Refuses, IsUnauthorized, is_authorization_of,
  authorize_hold_with_provider-Refuses,
}
use connextion_z_luna.Payment.Guards.{Request, valid_payment_transitions, transition_guards}
use connextion_z_luna.Payment.Permission.{may_reach, transition_guards_iff}
use connextion_z_luna.Payment.Hold.{hold_transition}
use connextion_z_luna.Payment.Steps.{PaymentStep, binding}
use connextion_z_luna.Payment.Sound.Steps.{PaymentStep-check_constraints}
use connextion_z_luna.Provider.Factory.{
  Settings, ProviderChoice, Environment, disabled_provider, get_payment_provider,
}
use connextion_z_luna.Payment.Refusal.Production.{initialize_in_production-Refuses}
use connextion_z_luna.Tests.Payments.{collaboration, empty_session, lifecycle, becomes}

-- A pending payment that is bound to a provider.
abbrev bound_payment : CollaborationPayment
bound_payment = record (new_payment 1 10 20 (pos 5000) "USD") {
  id = 7;
  payment_provider = some "fake";
  provider_reference = some "reference";
}

abbrev bound_session : Session
bound_session = record empty_session { rows = bound_payment ∷ []; committed = bound_payment ∷ [] }

bound_payment-IsSound : IsSound bound_payment
unfolding party_constraints hold_constraints audit_constraints dispute_constraints exclusive
    is_upper
bound_payment-IsSound = record {
  party = refl;
  hold = refl;
  audit = refl;
  dispute = refl;
  excludes = refl;
}

abbrev cancelled_payment : CollaborationPayment
cancelled_payment = record bound_payment {
  state = CollaborationPaymentState.cancelled;
  cancelled_at = some 100;
  cancelled_by_operation = some "internal_collaboration_failure_cancellation";
}

abbrev cancelled_session : Session
cancelled_session = record bound_session {
  rows = cancelled_payment ∷ [];
  committed = cancelled_payment ∷ [];
}

-- Attempts to move a payment that is settled.
abbrev attempts : List Event
attempts =
    becomes CollaborationStatus.completed (some "2026") 300
    ∷ served (Call.moving 1 "RELEASED")
    ∷ served (Call.refunding 1)
    ∷ served (Call.resolving 1 "REFUNDED")
    ∷ []

history-is_paid_twice_example :
    All (λ p. is_paid_twice p ≡ false) (history lifecycle empty_session).rows
history-is_paid_twice_example = history-is_paid_twice lifecycle empty_session refl refl

history-is_paid_unaudited_example :
    All (λ p. is_paid_unaudited p ≡ false) (history lifecycle empty_session).rows
history-is_paid_unaudited_example = history-is_paid_unaudited lifecycle empty_session refl refl

history-HasPast_example : All (HasPast (bound_payment ∷ [])) (history attempts bound_session).rows
history-HasPast_example = history-HasPast attempts bound_session refl refl

history-IsFrozen_example :
    All (IsFrozen cancelled_payment) (history attempts cancelled_session).rows
history-IsFrozen_example =
    history-IsFrozen cancelled_payment attempts cancelled_session refl refl
      (record { rows = ((λ same. refl), tt); committed = ((λ same. refl), tt) })

transition_by_party-Refuses_example : Refuses (transition_by_party 1 20 "RELEASED") bound_session
transition_by_party-Refuses_example = transition_by_party-Refuses 1 20 "RELEASED" bound_session refl

-- A provider that authorizes less than it is asked for.
abbrev short_authorization : ProviderResult
short_authorization = record {
  provider_name = "fake";
  payment_reference_id = "reference";
  operation_id = some "operation";
  status = ProviderStatus.authorized;
  amount_minor_units = pos 4999;
  currency = "USD";
  idempotency_key = some "key";
  failure_code = none;
  failure_message = none;
}

abbrev unavailable_answer : Result ProviderResult
unavailable_answer =
    err (Error.provider_error (ProviderError.unavailable "Payment provider is unavailable" true))

abbrev short_provider : PaymentProvider
short_provider = record {
  name = "fake";
  initialize_payment = λ amount currency key. unavailable_answer;
  authorize_hold = λ reference amount currency key. ok short_authorization;
  cancel_hold = λ reference key. unavailable_answer;
  refund_payment = λ reference amount currency key. unavailable_answer;
  retrieve_payment_status = λ reference. unavailable_answer;
}

short_provider-IsUnauthorized : IsUnauthorized short_provider bound_payment "key"
short_provider-IsUnauthorized reference r answer =
    subst (λ x. is_authorization_of x bound_payment "key" ≡ false) (ok_injective answer) refl

bound_payment_found : get_for_collaboration 1 bound_session ≡ some bound_payment
unfolding get_for_collaboration
bound_payment_found = refl

authorize_hold_with_provider-Refuses_example :
    Refuses (authorize_hold_with_provider short_provider 1 10 "key") bound_session
authorize_hold_with_provider-Refuses_example =
    authorize_hold_with_provider-Refuses short_provider 1 10 "key" bound_session bound_payment
      bound_payment_found refl short_provider-IsUnauthorized

-- The hold of the bound payment.
abbrev held_request : Request
held_request = hold_transition (record {
  collaboration_id = 1;
  payer_user_id = 10;
  idempotency_key = "key";
  authorization_reference = none;
})

abbrev marked_payment : CollaborationPayment
marked_payment = record bound_payment {
  hold_idempotency_key = some "key";
  authorized_by_operation = some "internal_hold_authorization";
}

transition_guards_iff_example :
    (transition_guards (collaboration CollaborationStatus.proposed none) marked_payment held_request
      ≡ ok tt)
    ↔ ((state_in CollaborationPaymentState.authorized_held
            (valid_payment_transitions marked_payment.state)
          && may_reach
              (collaboration CollaborationStatus.proposed none)
              marked_payment
              (some "key")
              none
              CollaborationPaymentState.authorized_held)
        ≡ true)
transition_guards_iff_example =
    transition_guards_iff (collaboration CollaborationStatus.proposed none) marked_payment
      held_request

rebound_payment :
    PaymentStep bound_payment (record bound_payment { provider_reference = some "other" })
rebound_payment = binding "fake" "other" refl

PaymentStep-check_constraints_example :
    check_constraints (record bound_payment { provider_reference = some "other" }) ≡ true
PaymentStep-check_constraints_example =
    PaymentStep-check_constraints bound_payment
      (record bound_payment { provider_reference = some "other" }) bound_payment-IsSound
      rebound_payment

-- A held payment.
abbrev held_payment : CollaborationPayment
held_payment = record marked_payment {
  state = CollaborationPaymentState.authorized_held;
  authorized_at = some 100;
}

abbrev held_session : Session
held_session = record bound_session { rows = held_payment ∷ []; committed = held_payment ∷ [] }

held_payment_found : get_for_collaboration 1 held_session ≡ some held_payment
unfolding get_for_collaboration
held_payment_found = refl

-- A provider that cancels where it is asked to refund.
abbrev cancelling_provider : PaymentProvider
cancelling_provider = record short_provider {
  refund_payment = λ reference amount currency key. ok (record short_authorization {
    status = ProviderStatus.cancelled;
    amount_minor_units = pos 5000;
  });
}

cancelling_provider-IsUnrefunded : IsUnrefunded cancelling_provider held_payment "key"
cancelling_provider-IsUnrefunded reference r answer =
    subst (λ x. is_answer_for ProviderStatus.refunded x held_payment "key" ≡ false)
      (ok_injective answer) refl

refund_with_provider-Refuses_example :
    Refuses (refund_with_provider cancelling_provider 1 "key") held_session
refund_with_provider-Refuses_example =
    refund_with_provider-Refuses cancelling_provider 1 "key" held_session held_payment
      held_payment_found refl cancelling_provider-IsUnrefunded

abbrev production_settings : Settings
production_settings = record {
  real_money_enabled = false;
  provider = ProviderChoice.disabled;
  environment = Environment.production;
}

production_selects : get_payment_provider (λ key. key) production_settings ≡ ok disabled_provider
unfolding get_payment_provider
production_selects = refl

initialize_in_production-Refuses_example :
    Refuses (initialize_provider_payment disabled_provider 1 10 "key") bound_session
initialize_in_production-Refuses_example =
    initialize_in_production-Refuses (λ key. key) production_settings disabled_provider 1 10 "key"
      bound_session refl production_selects
