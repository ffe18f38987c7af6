-- ===== src/Tests/Payments.antt =====
-- Runs of backend/services/collaboration_payment_service.py.
use connextion_z_luna.Prelude.{
  ℕ, pos, String, true, false, ◌≡◌, refl, Option, none, some, List, [], ◌∷◌, map, is_blank, str_len,
  all_chars, is_space, is_currency_code, is_upper_ascii,
}
use connextion_z_luna.Errors.{message}
use connextion_z_luna.Exec.{attempt, ◌>>=◌}
use connextion_z_luna.Payment.Model.{
  Collaboration, CollaborationParticipant, CollaborationStatus, state_index,
}
use connextion_z_luna.Payment.Session.{
  Session, clashes, get_collaboration, get_participant_user_ids, get_accepted_participant_user_ids,
  get_for_collaboration, get_by_hold_idempotency_key, get_by_provider_reference, replace,
  set_attributes, rollback, is_accepted_row, save, create,
}
use connextion_z_luna.Payment.Constraints.{
  is_upper, party_constraints, hold_constraints, audit_constraints, dispute_constraints,
  check_constraints,
}
use connextion_z_luna.Payment.Audit.{
  validate_provider_idempotency_key, validate_hold_request, validate_amount_and_currency,
  require_party, require_provider_reference, require_completion_audit, require_cancellation_audit,
  require_refund_audit, require_dispute_audit, is_declined_recipient_resolution,
  validate_payment_relationship,
}
use connextion_z_luna.Payment.Guards.{trust_guards, lifecycle_guards, transition_guards}
use connextion_z_luna.Payment.Transition.{
  set_timestamp, set_dispute_resolution, reversal_operation, set_hold_reversal, stamp, commit_stamp,
  apply_transition, set_audit, restore, transition,
}
use connextion_z_luna.Payment.Service.{
  validate_relationship, get_locked_relationship_if_present, get_locked_relationship,
  create_pending_payment, get_payment_for_collaboration, activate_held_payment_if_eligible,
  activate_if_present, activate_for_collaboration_acceptance,
}
use connextion_z_luna.Payment.Hold.{
  cannot_authorize_hold, replay_hold, repeat_hold, set_hold, is_same_hold, replay_after_race,
  on_integrity_error, first_hold, hold_by_key, authorize_hold,
}
use connextion_z_luna.Payment.Resolution.{
  coerce_state, refund_updates, authorize_refund_locked, authorize_refund, cancel_resolved,
  cancel_if_present, cancel_for_collaboration_resolution, cancel_declined, decline_if_recipient,
  cancel_for_invitee_decline,
}
use connextion_z_luna.Payment.Dispute.{
  start_dispute, initiate_dispute_locked, transition_by_party, transition_by_system,
  resolution_updates, resolved_before, resolve_disputed, resolve_dispute,
}
use connextion_z_luna.Payment.Completion.{
  complete_first, complete_active, complete_if_present, confirm_collaboration_completion,
  release_again, release_first, release_completed, authorize_release,
}
use connextion_z_luna.Payment.Calls.{Call, Event, served, elsewhere, history, run, serve, handle}

abbrev pub collaboration : CollaborationStatus → Option String → Collaboration
collaboration status completed_at = record {
  id = 1;
  initiator_id = 10;
  status = status;
  is_deleted = false;
  completed_at = completed_at;
}

abbrev pub participants : List CollaborationParticipant
participants =
    record { collaboration_id = 1; user_id = 10; is_accepted = true }
    ∷ record { collaboration_id = 1; user_id = 20; is_accepted = true }
    ∷ []

-- The collaboration in another status, at another time.
abbrev pub becomes : CollaborationStatus → Option String → ℕ → Event
becomes status completed_at now =
    elsewhere (collaboration status completed_at ∷ []) participants now 8

abbrev pub empty_session : Session
empty_session = record {
  rows = [];
  committed = [];
  collaborations = collaboration CollaborationStatus.proposed none ∷ [];
  participants = participants;
  now = 100;
  new_id = 7;
}

-- From the creation to the release.
abbrev pub lifecycle : List Event
lifecycle =
    served (Call.creating 1 10 20 (pos 5000) "USD")
    ∷ served (
        Call.holding (record {
          collaboration_id = 1;
          payer_user_id = 10;
          idempotency_key = "key";
          authorization_reference = none;
        }))
    ∷ becomes CollaborationStatus.accepted none 200
    ∷ served (Call.activating 1)
    ∷ becomes CollaborationStatus.completed (some "2026") 300
    ∷ served (Call.completing 1)
    ∷ served (Call.releasing 1)
    ∷ served (Call.moving 1 "RELEASED")
    ∷ []

abbrev states : Session → List ℕ
states s = map (λ p. state_index p.state) s.rows

lifecycle_releases : states (history lifecycle empty_session) ≡ 5 ∷ []
unfolding clashes get_collaboration get_participant_user_ids get_accepted_participant_user_ids
    get_for_collaboration get_by_hold_idempotency_key get_by_provider_reference replace
    set_attributes rollback is_accepted_row save create is_upper party_constraints hold_constraints
    audit_constraints dispute_constraints check_constraints validate_provider_idempotency_key
    validate_hold_request validate_amount_and_currency require_party require_provider_reference
    require_completion_audit require_cancellation_audit require_refund_audit require_dispute_audit
    is_declined_recipient_resolution validate_payment_relationship trust_guards lifecycle_guards
    transition_guards set_timestamp set_dispute_resolution reversal_operation set_hold_reversal
    stamp commit_stamp apply_transition set_audit restore transition validate_relationship
    get_locked_relationship_if_present get_locked_relationship create_pending_payment
    get_payment_for_collaboration activate_held_payment_if_eligible activate_if_present
    activate_for_collaboration_acceptance cannot_authorize_hold replay_hold repeat_hold set_hold
    is_same_hold replay_after_race on_integrity_error first_hold hold_by_key authorize_hold
    coerce_state refund_updates authorize_refund_locked authorize_refund cancel_resolved
    cancel_if_present cancel_for_collaboration_resolution cancel_declined decline_if_recipient
    cancel_for_invitee_decline start_dispute initiate_dispute_locked transition_by_party
    transition_by_system resolution_updates resolved_before resolve_disputed resolve_dispute
    complete_first complete_active complete_if_present confirm_collaboration_completion
    release_again release_first release_completed authorize_release run serve handle history
    is_blank str_len all_chars is_space is_currency_code is_upper_ascii message attempt ◌>>=◌
lifecycle_releases = refl
