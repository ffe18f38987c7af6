-- ===== src/Payment/Completion.antt =====
-- `confirm_collaboration_completion` and `authorize_release` of
-- backend/services/collaboration_payment_service.py.
use connextion_z_luna.Prelude.{
  ℕ, Bool, not, ◌||◌, Option, none, some, [], ◌∷◌, is_none, is_text, is_falsy, if◌then◌else◌,
}
use connextion_z_luna.Errors.{Error, raise_if}
use connextion_z_luna.Exec.{Exec, pure, lift, ◌>>=◌, ◌>>◌}
use connextion_z_luna.Payment.Model.{
  Collaboration, CollaborationPayment, CollaborationStatus, CollaborationPaymentState, state_in,
  status_in, collaboration_active, release_pending,
}
use connextion_z_luna.Payment.Session.{Session, set_attributes}
use connextion_z_luna.Payment.Audit.{
  completion_operation, release_operation, require_completion_audit,
}
use connextion_z_luna.Payment.Transition.{transition}
use connextion_z_luna.Payment.Service.{
  validate_relationship, get_locked_relationship, get_locked_relationship_if_present, plain,
}
use connextion_z_luna.Payment.Resolution.{keep}

-- `collaboration.status != COMPLETED or not collaboration.completed_at`.
abbrev is_unfinished : Collaboration → Bool
is_unfinished c =
    not (status_in c.status (CollaborationStatus.completed ∷ [])) || is_falsy c.completed_at

-- The branch for a payment that is not completed yet.
unfoldable pub complete_first :
    Collaboration → CollaborationPayment → Exec Session CollaborationPayment
complete_first c p = do
  lift (
      raise_if (not (state_in p.state (collaboration_active ∷ [])))
        (Error.value_error "Payment completion requires an active payment with an authorized hold"))
  lift (
      raise_if (is_none p.authorized_at)
        (Error.value_error "Payment completion requires a prior held authorization"))
  let q = record p { completion_confirmed_by_operation = some completion_operation }
  set_attributes q
  transition c q (plain CollaborationPaymentState.completed) []

unfoldable pub complete_active :
    Collaboration → CollaborationPayment → Exec Session CollaborationPayment
complete_active c p =
    if state_in p.state (CollaborationPaymentState.completed ∷ [])
    then keep (require_completion_audit p) p
    else complete_first c p

unfoldable pub complete_if_present :
    Collaboration → Option CollaborationPayment → Exec Session (Option CollaborationPayment)
complete_if_present c none = pure none
complete_if_present c (some p) = do
  validate_relationship c p
  confirmed ← complete_active c p
  pure (some confirmed)

unfoldable pub confirm_collaboration_completion : ℕ → Exec Session (Option CollaborationPayment)
confirm_collaboration_completion collaboration_id = do
  (collaboration, payment) ← get_locked_relationship_if_present collaboration_id
  lift (
      raise_if (is_unfinished collaboration) (
        Error.value_error "Payment completion requires an authoritatively completed collaboration"))
  complete_if_present collaboration payment

-- The branch for a payment whose release is authorized already.
unfoldable pub release_again : CollaborationPayment → Exec Session CollaborationPayment
release_again p = do
  lift (require_completion_audit p)
  keep
      (raise_if
        (is_none p.release_pending_at
          || not (is_text p.release_authorized_by_operation release_operation))
        (Error.value_error "Stored release authorization audit is inconsistent"))
      p

unfoldable pub release_first :
    Collaboration → CollaborationPayment → Exec Session CollaborationPayment
release_first c p = do
  lift (
      raise_if (not (state_in p.state (CollaborationPaymentState.completed ∷ [])))
        (Error.value_error "Release authorization requires a completed, held payment"))
  lift (require_completion_audit p)
  lift (
      raise_if (is_none p.authorized_at)
        (Error.value_error "Release authorization requires a prior held authorization"))
  let q = record p { release_authorized_by_operation = some release_operation }
  set_attributes q
  transition c q (plain release_pending) []

unfoldable pub release_completed :
    Collaboration → CollaborationPayment → Exec Session CollaborationPayment
release_completed c p =
    if state_in p.state (release_pending ∷ []) then release_again p else release_first c p

unfoldable pub authorize_release : ℕ → Exec Session CollaborationPayment
authorize_release collaboration_id = do
  (collaboration, payment) ← get_locked_relationship collaboration_id
  validate_relationship collaboration payment
  lift (
      raise_if (is_unfinished collaboration) (
        Error.value_error
          "Release authorization requires an authoritatively completed collaboration"))
  release_completed collaboration payment
