-- ===== src/Payment/Service.antt =====
-- The creation, the reads and the activation of backend/services/collaboration_payment_service.py.
use connextion_z_luna.Prelude.{
  ℕ, ℤ, String, Bool, not, ◌&&◌, ◌||◌, ◌==◌, Option, none, some, [], ◌∷◌, is_none, is_some,
  contains, if◌then◌else◌,
}
use connextion_z_luna.Errors.{Error, Result, ok, err, raise_if}
use connextion_z_luna.Exec.{Exec, pure, raise, lift, gets, ◌>>=◌, ◌>>◌}
use connextion_z_luna.Payment.Model.{
  Collaboration, CollaborationPayment, CollaborationStatus, CollaborationPaymentState, state_in,
  status_in, pending, authorized_held, collaboration_active, proposed, accepted, in_progress,
}
use connextion_z_luna.Payment.Session.{
  Session, create, get_collaboration, get_participant_user_ids, get_for_collaboration,
}
use connextion_z_luna.Payment.Audit.{
  validate_amount_and_currency, validate_payment_relationship, require_party,
}
use connextion_z_luna.Payment.Guards.{Request}
use connextion_z_luna.Payment.Transition.{transition}

abbrev pub require_some {ℓ} : {A : Type ℓ} → Option A → String → Result A
require_some none text = err (Error.value_error text)
require_some (some a) text = ok a

unfoldable pub validate_relationship :
    Collaboration → CollaborationPayment → Exec Session (Unit {0})
validate_relationship c p = do
  participant_ids ← gets (get_participant_user_ids c.id)
  lift (validate_payment_relationship c p participant_ids)

unfoldable pub get_locked_relationship_if_present :
    ℕ → Exec Session (Collaboration × Option CollaborationPayment)
get_locked_relationship_if_present collaboration_id = do
  found ← gets (get_collaboration collaboration_id)
  collaboration ← lift (require_some found "Collaboration not found")
  payment ← gets (get_for_collaboration collaboration_id)
  pure (collaboration, payment)

unfoldable pub get_locked_relationship : ℕ → Exec Session (Collaboration × CollaborationPayment)
get_locked_relationship collaboration_id = do
  (collaboration, found) ← get_locked_relationship_if_present collaboration_id
  payment ← lift (require_some found "Payment not found")
  pure (collaboration, payment)

abbrev pub is_open : CollaborationStatus → Bool
is_open status = status_in status (proposed ∷ accepted ∷ in_progress ∷ [])

abbrev pub new_payment : ℕ → ℕ → ℕ → ℤ → String → CollaborationPayment
new_payment collaboration_id payer recipient amount currency = record {
  id = 0;
  collaboration_id = collaboration_id;
  payer_user_id = payer;
  recipient_user_id = recipient;
  amount_minor_units = amount;
  currency = currency;
  state = pending;
  payment_provider = none;
  provider_reference = none;
  hold_idempotency_key = none;
  authorization_reference = none;
  authorized_by_operation = none;
  authorized_at = none;
  hold_reversed_at = none;
  hold_reversed_by_operation = none;
  collaboration_started_at = none;
  completed_at = none;
  completion_confirmed_by_operation = none;
  release_pending_at = none;
  release_authorized_by_operation = none;
  released_at = none;
  cancelled_at = none;
  refunded_at = none;
  disputed_at = none;
  cancelled_by_operation = none;
  refund_authorized_at = none;
  refund_authorized_by_operation = none;
  disputed_by_user_id = none;
  disputed_by_operation = none;
  dispute_resolved_at = none;
  dispute_resolved_by_operation = none;
}

unfoldable pub create_pending_payment : ℕ → ℕ → ℕ → ℤ → String → Exec Session CollaborationPayment
create_pending_payment collaboration_id actor recipient amount currency = do
  lift (validate_amount_and_currency amount currency)
  found ← gets (get_collaboration collaboration_id)
  collaboration ← lift (require_some found "Collaboration not found")
  lift (
      raise_if (not (is_open collaboration.status))
        (Error.value_error "Cannot create a payment for a resolved collaboration"))
  lift (
      raise_if (not (actor == collaboration.initiator_id))
        (Error.permission_error "Only the collaboration initiator can create its payment"))
  lift (
      raise_if (recipient == actor)
        (Error.value_error "Payer and recipient must be different users"))
  participant_ids ← gets (get_participant_user_ids collaboration_id)
  lift (
      raise_if (not (contains participant_ids actor) || not (contains participant_ids recipient))
        (Error.permission_error "Payment parties must belong to the collaboration"))
  existing ← gets (get_for_collaboration collaboration_id)
  lift (
      raise_if (is_some existing)
        (Error.value_error "A payment already exists for this collaboration"))
  create (new_payment collaboration_id actor recipient amount currency)

unfoldable pub get_payment_for_collaboration : ℕ → ℕ → Exec Session CollaborationPayment
get_payment_for_collaboration collaboration_id actor = do
  (collaboration, payment) ← get_locked_relationship collaboration_id
  validate_relationship collaboration payment
  lift (require_party payment actor)
  pure payment

-- A transition with no key, no operation and no audit.
abbrev pub plain : CollaborationPaymentState → Request
plain target = record { target = target; authorization_key = none; operation = none }

abbrev pub by_operation : CollaborationPaymentState → String → Request
by_operation target operation = record {
  target = target;
  authorization_key = none;
  operation = some operation;
}

unfoldable pub activate_held_payment_if_eligible :
    Collaboration → CollaborationPayment → Exec Session CollaborationPayment
activate_held_payment_if_eligible c p =
    if not (status_in c.status (accepted ∷ in_progress ∷ []))
    then pure p
    else if state_in p.state (authorized_held ∷ [])
    then transition c p (plain collaboration_active) []
    else if state_in p.state (collaboration_active ∷ []) && is_none p.collaboration_started_at
    then raise (Error.value_error "Active payment has no collaboration activation audit")
    else pure p

unfoldable pub activate_if_present :
    Collaboration → Option CollaborationPayment → Exec Session (Option CollaborationPayment)
activate_if_present c none = pure none
activate_if_present c (some p) = do
  validate_relationship c p
  lift (
      raise_if (not (status_in c.status (accepted ∷ in_progress ∷ [])))
        (Error.value_error "Payment activation requires an accepted or in-progress collaboration"))
  active ← activate_held_payment_if_eligible c p
  pure (some active)

unfoldable pub activate_for_collaboration_acceptance :
    ℕ → Exec Session (Option CollaborationPayment)
activate_for_collaboration_acceptance collaboration_id = do
  (collaboration, payment) ← get_locked_relationship_if_present collaboration_id
  activate_if_present collaboration payment
