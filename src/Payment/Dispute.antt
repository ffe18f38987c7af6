-- ===== src/Payment/Dispute.antt =====
-- Disputes, and the transitions that a party or the system asks for:
-- backend/services/collaboration_payment_service.py.
use connextion_z_luna.Prelude.{
  ℕ, String, not, ◌&&◌, ◌==◌, List, [], ◌∷◌, is_none, is_text, contains, if◌then◌else◌,
}
use connextion_z_luna.Errors.{Error, raise_if}
use connextion_z_luna.Exec.{Exec, pure, raise, lift, gets, ◌>>=◌, ◌>>◌}
use connextion_z_luna.Payment.Model.{
  Collaboration, CollaborationPayment, CollaborationPaymentState, state_in, state_index,
  authorized_held, collaboration_active, release_pending, refunded, disputed,
}
use connextion_z_luna.Payment.Session.{Session, get_accepted_participant_user_ids}
use connextion_z_luna.Payment.Audit.{
  dispute_operation, dispute_resolution_operation, require_party, require_dispute_audit,
}
use connextion_z_luna.Payment.Transition.{
  AuditUpdate, cancelled_by, refund_authorized_by, disputed_by, dispute_resolved_by,
  disputed_by_user, transition,
}
use connextion_z_luna.Payment.Service.{
  validate_relationship, get_locked_relationship, plain, by_operation,
}
use connextion_z_luna.Payment.Resolution.{coerce_state, keep}

-- The branch for a payment that is not disputed yet.
unfoldable pub start_dispute :
    Collaboration → CollaborationPayment → ℕ → Exec Session CollaborationPayment
start_dispute c p actor = do
  lift (
      raise_if
        (not (
          state_in p.state (
            authorized_held ∷ collaboration_active ∷ CollaborationPaymentState.completed
            ∷ release_pending ∷ [])))
        (Error.permission_error "Payment cannot be disputed in its current state"))
  transition c p (by_operation disputed dispute_operation)
      (disputed_by_user actor ∷ disputed_by dispute_operation ∷ [])

unfoldable pub initiate_dispute_locked :
    Collaboration → CollaborationPayment → ℕ → Exec Session CollaborationPayment
initiate_dispute_locked c p actor = do
  lift (require_party p actor)
  accepted_participants ← gets (get_accepted_participant_user_ids c.id)
  lift (
      raise_if (not (actor == c.initiator_id) && not (contains accepted_participants actor))
        (Error.permission_error "Only an accepted collaboration party can initiate a dispute"))
  if state_in p.state (disputed ∷ [])
      then keep (require_dispute_audit p) p
      else start_dispute c p actor

unfoldable pub transition_by_party : ℕ → ℕ → String → Exec Session CollaborationPayment
transition_by_party collaboration_id actor new_state = do
  (collaboration, payment) ← get_locked_relationship collaboration_id
  validate_relationship collaboration payment
  lift (require_party payment actor)
  target ← lift (coerce_state new_state)
  if state_in target (disputed ∷ [])
      then initiate_dispute_locked collaboration payment actor
      else if not (state_in target (CollaborationPaymentState.cancelled ∷ []))
      then raise (Error.permission_error "Parties cannot directly change financial state")
      else raise
          (Error.permission_error "Payment cancellation must follow the collaboration lifecycle")

unfoldable pub transition_by_system : ℕ → String → Exec Session CollaborationPayment
transition_by_system collaboration_id new_state = do
  (collaboration, payment) ← get_locked_relationship collaboration_id
  validate_relationship collaboration payment
  target ← lift (coerce_state new_state)
  lift (
      raise_if
        (state_in target (
          authorized_held ∷ CollaborationPaymentState.completed ∷ release_pending
          ∷ CollaborationPaymentState.cancelled ∷ refunded ∷ disputed ∷ []))
        (Error.permission_error "Use the dedicated payment failure or lifecycle operation"))
  transition collaboration payment (plain target) []

-- The audits of a resolution to `target`.
unfoldable pub resolution_updates : CollaborationPaymentState → List AuditUpdate
resolution_updates target =
    dispute_resolved_by dispute_resolution_operation
    ∷ (if state_in target (CollaborationPaymentState.cancelled ∷ [])
        then cancelled_by dispute_resolution_operation ∷ []
        else refund_authorized_by dispute_resolution_operation ∷ [])

-- A payment that is `CANCELLED` or `REFUNDED` already.
unfoldable pub resolved_before :
    CollaborationPayment → CollaborationPaymentState → Exec Session CollaborationPayment
resolved_before p target = do
  lift (
      raise_if (not (is_text p.dispute_resolved_by_operation dispute_resolution_operation))
        (Error.value_error "Payment has no valid dispute resolution audit"))
  lift (
      raise_if (not (state_index p.state == state_index target))
        (Error.value_error "Dispute was already resolved differently"))
  pure p

unfoldable pub resolve_disputed :
    Collaboration
    → CollaborationPayment
    → CollaborationPaymentState
    → Exec Session CollaborationPayment
resolve_disputed c p target = do
  lift (
      raise_if (not (state_in p.state (disputed ∷ [])))
        (Error.value_error "Only a disputed payment can be resolved"))
  lift (require_dispute_audit p)
  lift (
      raise_if
        (not (state_in target (CollaborationPaymentState.cancelled ∷ []))
          && is_none p.authorized_at)
        (Error.value_error "Refund authorization requires a prior held authorization"))
  transition c p (by_operation target dispute_resolution_operation) (resolution_updates target)

unfoldable pub resolve_dispute : ℕ → String → Exec Session CollaborationPayment
resolve_dispute collaboration_id resolution = do
  (collaboration, payment) ← get_locked_relationship collaboration_id
  validate_relationship collaboration payment
  target ← lift (coerce_state resolution)
  lift (
      raise_if (not (state_in target (CollaborationPaymentState.cancelled ∷ refunded ∷ [])))
        (Error.value_error "Disputes may resolve only to cancelled or refunded"))
  if state_in payment.state (CollaborationPaymentState.cancelled ∷ refunded ∷ [])
      then resolved_before payment target
      else resolve_disputed collaboration payment target
