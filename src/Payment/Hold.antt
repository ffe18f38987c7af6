-- ===== src/Payment/Hold.antt =====
-- `authorize_hold` of backend/services/collaboration_payment_service.py.
use connextion_z_luna.Prelude.{
  ℕ, String, Bool, not, ◌&&◌, ◌||◌, ◌==◌, Option, none, some, [], ◌∷◌, is_none, is_some, is_text,
  opt_text_eq, if◌then◌else◌,
}
use connextion_z_luna.Errors.{Error, raise_if, message}
use connextion_z_luna.Exec.{Exec, raise, lift, gets, attempt, ◌>>=◌, ◌>>◌}
use connextion_z_luna.Payment.Model.{
  Collaboration, CollaborationPayment, CollaborationPaymentState, state_in, state_value, pending,
  authorized_held, released, refunded,
}
use connextion_z_luna.Payment.Session.{
  Session, set_attributes, rollback, get_by_hold_idempotency_key,
}
use connextion_z_luna.Payment.Audit.{hold_operation, validate_hold_request}
use connextion_z_luna.Payment.Guards.{Request}
use connextion_z_luna.Payment.Transition.{transition}
use connextion_z_luna.Payment.Service.{
  validate_relationship, get_locked_relationship, activate_held_payment_if_eligible, is_open,
}

-- The arguments of the call.
pub record HoldRequest : Type 0 where
  pub collaboration_id : ℕ
  pub payer_user_id : ℕ
  pub idempotency_key : String
  pub authorization_reference : Option String

unfoldable pub cannot_authorize_hold : CollaborationPayment → Error
cannot_authorize_hold p =
    Error.value_error
      (message "Cannot authorize hold for payment in " (state_value p.state) " state")

abbrev pub is_final : CollaborationPaymentState → Bool
is_final t = state_in t (CollaborationPaymentState.cancelled ∷ refunded ∷ released ∷ [])

-- The branch for a key that some payment already bears.
unfoldable pub replay_hold :
    Collaboration
    → CollaborationPayment
    → CollaborationPayment
    → HoldRequest
    → Exec Session CollaborationPayment
replay_hold c p existing q = do
  lift (
      raise_if
        (not (existing.id == p.id)
          || not (opt_text_eq existing.authorization_reference q.authorization_reference))
        (Error.value_error "Hold idempotency key was already used"))
  lift (
      raise_if
        (state_in existing.state (pending ∷ [])
          || is_none existing.authorized_at
          || not (is_text existing.authorized_by_operation hold_operation))
        (Error.value_error "Stored hold idempotency data is inconsistent"))
  lift (raise_if (is_final existing.state) (cannot_authorize_hold existing))
  activate_held_payment_if_eligible c existing

-- The branch for a payment that has left `PENDING`.
unfoldable pub repeat_hold :
    Collaboration → CollaborationPayment → HoldRequest → Exec Session CollaborationPayment
repeat_hold c p q =
    if is_text p.hold_idempotency_key q.idempotency_key
      && opt_text_eq p.authorization_reference q.authorization_reference
      && is_some p.authorized_at
    then lift (raise_if (is_final p.state) (cannot_authorize_hold p))
      >> activate_held_payment_if_eligible c p
    else raise (cannot_authorize_hold p)

-- The marks that the call writes before the transition.
unfoldable pub set_hold : HoldRequest → CollaborationPayment → CollaborationPayment
set_hold q p = record p {
  hold_idempotency_key = some q.idempotency_key;
  authorization_reference = q.authorization_reference;
  authorized_by_operation = some hold_operation;
}

unfoldable pub is_same_hold : HoldRequest → CollaborationPayment → Bool
is_same_hold q replay =
    replay.collaboration_id == q.collaboration_id
    && replay.payer_user_id == q.payer_user_id
    && opt_text_eq replay.authorization_reference q.authorization_reference

-- What the handler of `IntegrityError` does with the payment that bears the key after the rollback.
unfoldable pub replay_after_race :
    Collaboration → HoldRequest → Option CollaborationPayment → Exec Session CollaborationPayment
replay_after_race c q none = raise Error.integrity_error
replay_after_race c q (some replay) =
    if is_same_hold q replay
    then activate_held_payment_if_eligible c replay
    else raise Error.integrity_error

unfoldable pub on_integrity_error :
    Collaboration → HoldRequest → Error → Exec Session CollaborationPayment
on_integrity_error c q Error.integrity_error = do
  rollback
  replay ← gets (get_by_hold_idempotency_key q.idempotency_key)
  replay_after_race c q replay
on_integrity_error c q e = raise e

abbrev pub hold_transition : HoldRequest → Request
hold_transition q = record {
  target = authorized_held;
  authorization_key = some q.idempotency_key;
  operation = none;
}

-- The branch for a pending payment and a fresh key.
unfoldable pub first_hold :
    Collaboration → CollaborationPayment → HoldRequest → Exec Session CollaborationPayment
first_hold c p q = do
  lift (
      raise_if (is_some p.authorized_at || is_some p.hold_idempotency_key)
        (Error.value_error "Pending payment contains conflicting hold authorization data"))
  lift (
      raise_if (not (is_open c.status))
        (Error.value_error "Cannot authorize a hold for a resolved collaboration"))
  set_attributes (set_hold q p)
  attempt
      (do
        authorized ← transition c (set_hold q p) (hold_transition q) []
        activate_held_payment_if_eligible c authorized)
      (on_integrity_error c q)

unfoldable pub hold_by_key :
    Collaboration
    → CollaborationPayment
    → HoldRequest
    → Option CollaborationPayment
    → Exec Session CollaborationPayment
hold_by_key c p q (some existing) = replay_hold c p existing q
hold_by_key c p q none =
    if not (state_in p.state (pending ∷ [])) then repeat_hold c p q else first_hold c p q

unfoldable pub authorize_hold : HoldRequest → Exec Session CollaborationPayment
authorize_hold q = do
  lift (validate_hold_request q.idempotency_key q.authorization_reference)
  (collaboration, payment) ← get_locked_relationship q.collaboration_id
  validate_relationship collaboration payment
  lift (
      raise_if (not (q.payer_user_id == payment.payer_user_id))
        (Error.permission_error "Only the payment payer can authorize a hold"))
  existing ← gets (get_by_hold_idempotency_key q.idempotency_key)
  hold_by_key collaboration payment q existing
