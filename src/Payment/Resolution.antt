-- ===== src/Payment/Resolution.antt =====
-- Cancellation and refund: backend/services/collaboration_payment_service.py, lines 649 to 813.
use connextion_z_luna.Prelude.{
  ℕ, String, Bool, true, false, not, ◌&&◌, ◌||◌, ◌==◌, Option, none, some, List, [], ◌∷◌, is_none,
  str_eq, contains, if◌then◌else◌,
}
use connextion_z_luna.Errors.{Error, Result, ok, err, raise_if, message}
use connextion_z_luna.Exec.{Exec, pure, raise, lift, gets, ◌>>=◌, ◌>>◌}
use connextion_z_luna.Payment.Model.{
  Collaboration, CollaborationPayment, CollaborationStatus, CollaborationPaymentState, state_in,
  status_in, state_value, pending, authorized_held, collaboration_active, release_pending, released,
  refunded, disputed, proposed, declined,
}
use connextion_z_luna.Payment.Session.{
  Session, get_participant_user_ids, get_accepted_participant_user_ids,
}
use connextion_z_luna.Payment.Audit.{
  cancellation_operation, invitee_rejection_operation, refund_operation,
  dispute_resolution_operation, cancellation_refund_operation, require_cancellation_audit,
  require_refund_audit, require_dispute_audit,
}
use connextion_z_luna.Payment.Transition.{
  AuditUpdate, cancelled_by, refund_authorized_by, dispute_resolved_by, transition,
}
use connextion_z_luna.Payment.Service.{
  validate_relationship, get_locked_relationship, get_locked_relationship_if_present, by_operation,
}

-- `CollaborationPaymentState(new_state)`: a member is a text, its value.
unfoldable pub coerce_state : String → Result CollaborationPaymentState
coerce_state t =
    if str_eq t "PENDING"
    then ok pending
    else if str_eq t "AUTHORIZED_HELD"
    then ok authorized_held
    else if str_eq t "COLLABORATION_ACTIVE"
    then ok collaboration_active
    else if str_eq t "COMPLETED"
    then ok CollaborationPaymentState.completed
    else if str_eq t "RELEASE_PENDING"
    then ok release_pending
    else if str_eq t "RELEASED"
    then ok released
    else if str_eq t "CANCELLED"
    then ok CollaborationPaymentState.cancelled
    else if str_eq t "REFUNDED"
    then ok refunded
    else if str_eq t "DISPUTED"
    then ok disputed
    else err (Error.value_error (message "Invalid payment state: " t ""))

-- A payment that has been resolved already is returned if its audit stands.
abbrev pub keep : Result (Unit {0}) → CollaborationPayment → Exec Session CollaborationPayment
keep audit p = lift audit >> pure p

abbrev pub refundable : List CollaborationPaymentState
refundable =
    authorized_held ∷ collaboration_active ∷ CollaborationPaymentState.completed ∷ release_pending
    ∷ disputed ∷ []

unfoldable pub refund_updates : CollaborationPayment → String → Bool → List AuditUpdate
refund_updates p operation resolve_dispute =
    refund_authorized_by operation
    ∷ (if state_in p.state (disputed ∷ []) && resolve_dispute
        then dispute_resolved_by dispute_resolution_operation ∷ []
        else [])

unfoldable pub authorize_refund_locked :
    Collaboration → CollaborationPayment → String → Bool → Exec Session CollaborationPayment
authorize_refund_locked c p operation resolve_dispute =
    if state_in p.state (refunded ∷ []) then keep (require_refund_audit p) p else do
      lift (
          raise_if (not (state_in p.state refundable)) (
            Error.value_error
              (message "Payment in " (state_value p.state) " state cannot be refunded")))
      lift (
          raise_if (is_none p.authorized_at)
            (Error.value_error "Refund authorization requires a prior held authorization"))
      transition c p (by_operation refunded operation) (refund_updates p operation resolve_dispute)

unfoldable pub authorize_refund : ℕ → Exec Session CollaborationPayment
authorize_refund collaboration_id = do
  (collaboration, payment) ← get_locked_relationship collaboration_id
  validate_relationship collaboration payment
  authorize_refund_locked collaboration payment refund_operation true

-- `cancel_for_collaboration_resolution` once the payment is known and validated.
unfoldable pub cancel_resolved :
    Collaboration → CollaborationPayment → Exec Session CollaborationPayment
cancel_resolved c p =
    if state_in p.state (disputed ∷ [])
    then keep (require_dispute_audit p) p
    else if state_in p.state (CollaborationPaymentState.cancelled ∷ [])
    then keep (require_cancellation_audit p) p
    else if state_in p.state (refunded ∷ [])
    then keep (require_refund_audit p) p
    else if state_in p.state (released ∷ [])
    then raise (Error.value_error "A released payment cannot be cancelled or reversed")
    else if state_in p.state (CollaborationPaymentState.completed ∷ release_pending ∷ [])
    then authorize_refund_locked c p cancellation_refund_operation false
    else if not (state_in p.state (pending ∷ authorized_held ∷ collaboration_active ∷ []))
    then raise (
        Error.value_error
          (message "Payment in " (state_value p.state) " state cannot follow cancellation"))
    else transition c p (by_operation CollaborationPaymentState.cancelled cancellation_operation)
        (cancelled_by cancellation_operation ∷ [])

unfoldable pub cancel_if_present :
    Collaboration → Option CollaborationPayment → Exec Session (Option CollaborationPayment)
cancel_if_present c none = pure none
cancel_if_present c (some p) = do
  validate_relationship c p
  resolved ← cancel_resolved c p
  pure (some resolved)

unfoldable pub cancel_for_collaboration_resolution : ℕ → Exec Session (Option CollaborationPayment)
cancel_for_collaboration_resolution collaboration_id = do
  (collaboration, payment) ← get_locked_relationship_if_present collaboration_id
  lift (
      raise_if
        (not (status_in collaboration.status (CollaborationStatus.cancelled ∷ declined ∷ [])))
        (Error.value_error "Payment cancellation requires a cancelled or declined collaboration"))
  cancel_if_present collaboration payment

unfoldable pub cancel_declined :
    Collaboration → CollaborationPayment → Exec Session CollaborationPayment
cancel_declined c p =
    if state_in p.state (CollaborationPaymentState.cancelled ∷ [])
    then keep (require_cancellation_audit p) p
    else if state_in p.state (refunded ∷ [])
    then keep (require_refund_audit p) p
    else if state_in p.state (disputed ∷ [])
    then keep (require_dispute_audit p) p
    else if not (state_in p.state (pending ∷ authorized_held ∷ []))
    then raise (
        Error.value_error
          (message "Payment in " (state_value p.state) " state cannot follow invitee rejection"))
    else transition c p
        (by_operation CollaborationPaymentState.cancelled invitee_rejection_operation)
        (cancelled_by invitee_rejection_operation ∷ [])

unfoldable pub decline_if_recipient :
    Collaboration → Option CollaborationPayment → ℕ → Exec Session (Option CollaborationPayment)
decline_if_recipient c none user = pure none
decline_if_recipient c (some p) user =
    if not (p.recipient_user_id == user)
    then pure none
    else do validate_relationship c p; resolved ← cancel_declined c p; pure (some resolved)

unfoldable pub cancel_for_invitee_decline : ℕ → ℕ → Exec Session (Option CollaborationPayment)
cancel_for_invitee_decline collaboration_id declined_user_id = do
  (collaboration, payment) ← get_locked_relationship_if_present collaboration_id
  lift (
      raise_if (not (status_in collaboration.status (proposed ∷ declined ∷ []))) (
        Error.value_error
          "Invitee payment cancellation requires a pending or declined collaboration"))
  participant_ids ← gets (get_participant_user_ids collaboration_id)
  accepted_participant_ids ← gets (get_accepted_participant_user_ids collaboration_id)
  lift (
      raise_if
        (declined_user_id == collaboration.initiator_id
          || not (contains participant_ids declined_user_id)
          || contains accepted_participant_ids declined_user_id)
        (Error.permission_error "Only a pending collaboration invitee may decline"))
  decline_if_recipient collaboration payment declined_user_id
