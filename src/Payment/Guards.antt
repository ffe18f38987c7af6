-- ===== src/Payment/Guards.antt =====
-- `VALID_PAYMENT_TRANSITIONS` and the guards of `_apply_transition`,
-- backend/services/collaboration_payment_service.py.
use connextion_z_luna.Prelude.{
  String, not, ◌&&◌, ◌||◌, Option, List, [], ◌∷◌, is_none, is_text, opt_text_eq,
}
use connextion_z_luna.Errors.{Error, Result, raise_if, message, ◌>>◌}
use connextion_z_luna.Payment.Model.{
  Collaboration, CollaborationPayment, CollaborationStatus, CollaborationPaymentState, state_in,
  status_in, state_value, proposed, accepted, declined, in_progress, pending, authorized_held,
  collaboration_active, release_pending, released, refunded, disputed,
}
use connextion_z_luna.Payment.Audit.{
  completion_operation, release_operation, cancellation_operation, invitee_rejection_operation,
  refund_operation, dispute_operation, dispute_resolution_operation, hold_operation,
}

abbrev pub valid_payment_transitions : CollaborationPaymentState → List CollaborationPaymentState
valid_payment_transitions pending = authorized_held ∷ CollaborationPaymentState.cancelled ∷ []
valid_payment_transitions authorized_held =
    collaboration_active ∷ CollaborationPaymentState.cancelled ∷ refunded ∷ disputed ∷ []
valid_payment_transitions collaboration_active =
    CollaborationPaymentState.completed ∷ CollaborationPaymentState.cancelled ∷ refunded ∷ disputed
    ∷ []
valid_payment_transitions CollaborationPaymentState.completed =
    release_pending ∷ refunded ∷ disputed ∷ []
valid_payment_transitions release_pending = released ∷ refunded ∷ disputed ∷ []
valid_payment_transitions released = []
valid_payment_transitions CollaborationPaymentState.cancelled = []
valid_payment_transitions refunded = []
valid_payment_transitions disputed = CollaborationPaymentState.cancelled ∷ refunded ∷ []

-- The keyword arguments `authorization_key` and `operation`.
pub record Request : Type 0 where
  pub target : CollaborationPaymentState
  pub authorization_key : Option String
  pub operation : Option String

-- The trusted marks that a target state needs.
unfoldable pub trust_guards : CollaborationPayment → Request → Result (Unit {0})
trust_guards p r = do
  raise_if
      (state_in r.target (authorized_held ∷ [])
        && (is_none r.authorization_key
            || not (opt_text_eq p.hold_idempotency_key r.authorization_key)
            || not (is_text p.authorized_by_operation hold_operation)))
      (Error.permission_error "A trusted hold authorization is required")
  raise_if
      (state_in r.target (CollaborationPaymentState.completed ∷ [])
        && not (is_text p.completion_confirmed_by_operation completion_operation))
      (Error.permission_error "Use trusted collaboration completion confirmation")
  raise_if
      (state_in r.target (release_pending ∷ [])
        && not (is_text p.release_authorized_by_operation release_operation))
      (Error.permission_error "Use trusted release authorization")
  raise_if
      (state_in r.target (CollaborationPaymentState.cancelled ∷ [])
        && (not (
              is_text r.operation cancellation_operation
              || is_text r.operation invitee_rejection_operation
              || is_text r.operation dispute_resolution_operation)
            || not (opt_text_eq p.cancelled_by_operation r.operation)))
      (Error.permission_error "Use collaboration cancellation or dispute resolution")
  raise_if
      (state_in r.target (refunded ∷ [])
        && (is_none r.operation || not (opt_text_eq p.refund_authorized_by_operation r.operation)))
      (Error.permission_error "Use trusted refund authorization")
  raise_if
      (state_in r.target (disputed ∷ [])
        && (not (is_text r.operation dispute_operation)
            || not (is_text p.disputed_by_operation dispute_operation)
            || is_none p.disputed_by_user_id))
      (Error.permission_error "Use authorized party dispute initiation")

-- What the hold and the collaboration must have reached, and which operation ends a dispute.
unfoldable pub lifecycle_guards : Collaboration → CollaborationPayment → Request → Result (Unit {0})
lifecycle_guards c p r = do
  raise_if
      (state_in r.target (
          collaboration_active ∷ CollaborationPaymentState.completed ∷ release_pending ∷ released
          ∷ [])
        && (is_none p.authorized_at
            || is_none p.hold_idempotency_key
            || is_none p.authorized_by_operation))
      (Error.value_error "Payment has no valid held authorization")
  raise_if
      (state_in r.target (collaboration_active ∷ [])
        && not (status_in c.status (accepted ∷ in_progress ∷ [])))
      (Error.value_error "Collaboration must be accepted before payment activation")
  raise_if
      (state_in r.target (CollaborationPaymentState.completed ∷ release_pending ∷ released ∷ [])
        && not (status_in c.status (CollaborationStatus.completed ∷ [])))
      (Error.value_error "Payment completion and release require a completed collaboration")
  raise_if
      (state_in r.target (CollaborationPaymentState.cancelled ∷ [])
        && is_text r.operation cancellation_operation
        && not (status_in c.status (CollaborationStatus.cancelled ∷ declined ∷ [])))
      (Error.value_error "Payment cancellation requires a cancelled or declined collaboration")
  raise_if
      (state_in r.target (CollaborationPaymentState.cancelled ∷ [])
        && is_text r.operation invitee_rejection_operation
        && not (status_in c.status (proposed ∷ declined ∷ [])))
      (Error.value_error "Invitee rejection cancellation requires a pending collaboration")
  raise_if
      (state_in p.state (disputed ∷ [])
        && state_in r.target (CollaborationPaymentState.cancelled ∷ [])
        && not (is_text r.operation dispute_resolution_operation))
      (Error.value_error "Disputed payment cancellation requires trusted resolution")
  raise_if
      (state_in p.state (disputed ∷ [])
        && state_in r.target (refunded ∷ [])
        && not (is_text r.operation dispute_resolution_operation)
        && not (is_text r.operation refund_operation))
      (Error.value_error "Disputed payment refund requires trusted resolution")

unfoldable pub transition_guards :
    Collaboration → CollaborationPayment → Request → Result (Unit {0})
unfolding message
transition_guards c p r = do
  raise_if (not (state_in r.target (valid_payment_transitions p.state))) (
      Error.value_error (
        message (message "Invalid payment transition from " (state_value p.state) " to ")
          (state_value r.target) ""))
  trust_guards p r
  lifecycle_guards c p r
