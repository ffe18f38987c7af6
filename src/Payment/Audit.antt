-- ===== src/Payment/Audit.antt =====
-- The validations of backend/services/collaboration_payment_service.py that read one payment: its
-- audits, its parties, the texts and amounts of a request.
use connextion_z_luna.Prelude.{
  ℕ, ℤ, String, Bool, false, not, ◌&&◌, ◌||◌, ◌==◌, Option, none, some, List, [], ◌∷◌, ltb, is_none,
  is_some, is_text, str_eq, is_falsy, is_blank, str_len, is_between, is_currency_code, contains,
}
use connextion_z_luna.Errors.{Error, Result, ok, err, raise_if, ◌>>◌}
use connextion_z_luna.Payment.Model.{
  Collaboration, CollaborationPayment, CollaborationStatus, CollaborationPaymentState, state_in,
  status_in,
}

abbrev pub completion_operation : String
completion_operation = "internal_collaboration_completion_confirmation"

abbrev pub release_operation : String
release_operation = "internal_release_authorization"

abbrev pub cancellation_operation : String
cancellation_operation = "internal_collaboration_failure_cancellation"

abbrev pub invitee_rejection_operation : String
invitee_rejection_operation = "internal_invitee_rejection_cancellation"

abbrev pub refund_operation : String
refund_operation = "internal_refund_authorization"

abbrev pub dispute_operation : String
dispute_operation = "collaboration_party_dispute"

abbrev pub dispute_resolution_operation : String
dispute_resolution_operation = "internal_dispute_resolution"

abbrev legacy_dispute_operation : String
legacy_dispute_operation = "legacy_internal_dispute_state"

abbrev pub hold_operation : String
hold_operation = "internal_hold_authorization"

abbrev pub cancellation_refund_operation : String
cancellation_refund_operation = "internal_cancellation_refund_authorization"

abbrev pub max_minor_units : ℕ
max_minor_units = 9_223_372_036_854_775_807

unfoldable pub validate_provider_idempotency_key : String → Result (Unit {0})
validate_provider_idempotency_key key =
    raise_if (is_blank key || ltb 128 (str_len key))
      (Error.value_error "Provider idempotency key must contain 1 to 128 characters")

abbrev is_bad_reference : Option String → Bool
is_bad_reference none = false
is_bad_reference (some r) = is_blank r || ltb 255 (str_len r)

unfoldable pub validate_hold_request : String → Option String → Result (Unit {0})
validate_hold_request key reference = do
  raise_if (is_blank key || ltb 128 (str_len key))
      (Error.value_error "Hold idempotency key must contain 1 to 128 characters")
  raise_if (is_bad_reference reference)
      (Error.value_error "Authorization reference must contain 1 to 255 characters")

unfoldable pub validate_amount_and_currency : ℤ → String → Result (Unit {0})
validate_amount_and_currency amount currency = do
  raise_if (not (is_between 1 max_minor_units amount))
      (Error.value_error "Amount must be a positive integer in minor units")
  raise_if (not (is_currency_code currency))
      (Error.value_error "Currency must be a three-letter uppercase currency code")

unfoldable pub require_party : CollaborationPayment → ℕ → Result (Unit {0})
require_party p actor_id =
    raise_if (not (contains (p.payer_user_id ∷ p.recipient_user_id ∷ []) actor_id))
      (Error.permission_error "Payment access denied")

-- Returns the bound reference.
unfoldable pub require_provider_reference : CollaborationPayment → Result String
require_provider_reference p = elim p.provider_reference [
  | none ↦ err (Error.value_error "Payment has no bound provider reference")
  | some reference ↦
      raise_if (is_falsy p.payment_provider || str_eq reference "")
        (Error.value_error "Payment has no bound provider reference")
      >> ok reference
]

unfoldable pub require_completion_audit : CollaborationPayment → Result (Unit {0})
require_completion_audit p =
    raise_if
      (is_none p.completed_at
        || not (is_text p.completion_confirmed_by_operation completion_operation)
        || is_none p.authorized_at
        || not (is_text p.authorized_by_operation hold_operation))
      (Error.value_error "Payment has no valid held completion confirmation")

unfoldable pub require_cancellation_audit : CollaborationPayment → Result (Unit {0})
require_cancellation_audit p = do
  raise_if (is_none p.cancelled_at || is_none p.cancelled_by_operation)
      (Error.value_error "Payment has no valid cancellation audit")
  raise_if
      (is_some p.authorized_at
        && (is_none p.hold_reversed_at || is_none p.hold_reversed_by_operation))
      (Error.value_error "Cancelled held payment has no reversal audit")

unfoldable pub require_refund_audit : CollaborationPayment → Result (Unit {0})
require_refund_audit p =
    raise_if
      (is_none p.refund_authorized_at
        || is_none p.refund_authorized_by_operation
        || is_none p.refunded_at)
      (Error.value_error "Payment has no valid refund authorization audit")

unfoldable pub require_dispute_audit : CollaborationPayment → Result (Unit {0})
require_dispute_audit p =
    raise_if
      (is_none p.disputed_at
        || not (
            is_text p.disputed_by_operation dispute_operation
            || is_text p.disputed_by_operation legacy_dispute_operation))
      (Error.value_error "Payment has no valid dispute initiation audit")

-- The audits under which a declined collaboration may have lost the recipient's participant row.
unfoldable pub is_declined_recipient_resolution : CollaborationPayment → Bool
is_declined_recipient_resolution p =
    (state_in p.state (CollaborationPaymentState.cancelled ∷ [])
      && is_some p.cancelled_at
      && is_some p.cancelled_by_operation)
    || (state_in p.state (CollaborationPaymentState.refunded ∷ [])
        && is_some p.refund_authorized_at
        && is_some p.refund_authorized_by_operation)
    || (state_in p.state (CollaborationPaymentState.disputed ∷ [])
        && is_some p.disputed_at
        && is_text p.disputed_by_operation dispute_operation)

-- `participant_ids` is what the repository returns for the collaboration.
unfoldable pub validate_payment_relationship :
    Collaboration → CollaborationPayment → List ℕ → Result (Unit {0})
unfolding is_declined_recipient_resolution
validate_payment_relationship c p participant_ids = do
  raise_if (not (p.collaboration_id == c.id))
      (Error.value_error "Payment collaboration relationship is invalid")
  raise_if
      (not (p.payer_user_id == c.initiator_id)
        || not (contains participant_ids p.payer_user_id)
        || (not (contains participant_ids p.recipient_user_id)
            && not (
                status_in c.status (CollaborationStatus.declined ∷ [])
                && is_declined_recipient_resolution p))
        || p.payer_user_id == p.recipient_user_id)
      (Error.value_error "Payment parties do not match the collaboration")
  raise_if
      (not (
          state_in p.state
            (CollaborationPaymentState.pending ∷ CollaborationPaymentState.cancelled ∷ []))
        && (is_none p.authorized_at
            || is_falsy p.hold_idempotency_key
            || not (is_text p.authorized_by_operation hold_operation)))
      (Error.value_error "Payment state has no valid held authorization")
