-- ===== src/Payment/Permission.antt =====
-- The guards of `_apply_transition`, as a table of what each target state needs.
use connextion_z_luna.Prelude.{
  String, Bool, true, false, not, ◌≡◌, refl, ◌↔◌, ◌&&◌, ◌||◌, Option, none, some, [], ◌∷◌, is_some,
  is_text, opt_text_eq, arith, str_eq, str_eq_sound, subst, sym,
}
use connextion_z_luna.Errors.{ok}
use connextion_z_luna.Payment.Model.{
  Collaboration, CollaborationPayment, CollaborationStatus, CollaborationPaymentState, state_in,
  status_in, pending, authorized_held, collaboration_active, release_pending, released, refunded,
  disputed, accepted, in_progress, proposed, declined,
}
use connextion_z_luna.Payment.Audit.{
  hold_operation, completion_operation, release_operation, cancellation_operation,
  invitee_rejection_operation, refund_operation, dispute_operation, dispute_resolution_operation,
}
use connextion_z_luna.Payment.Guards.{
  Request, valid_payment_transitions, trust_guards, lifecycle_guards, transition_guards,
}

abbrev has_hold : CollaborationPayment → Bool
has_hold p =
    is_some p.authorized_at && is_some p.hold_idempotency_key && is_some p.authorized_by_operation

abbrev is_completed : Collaboration → Bool
is_completed c = status_in c.status (CollaborationStatus.completed ∷ [])

abbrev is_disputed : CollaborationPayment → Bool
is_disputed p = state_in p.state (disputed ∷ [])

-- Whose cancellation it is, and what that needs of the collaboration.
abbrev may_cancel : Collaboration → CollaborationPayment → Option String → Bool
may_cancel c p operation =
    opt_text_eq p.cancelled_by_operation operation
    && (is_text operation dispute_resolution_operation
        || (not (is_disputed p)
            && ((is_text operation cancellation_operation
                  && status_in c.status (CollaborationStatus.cancelled ∷ declined ∷ []))
                || (is_text operation invitee_rejection_operation
                    && status_in c.status (proposed ∷ declined ∷ [])))))

-- What a target state needs, state by state.
abbrev pub may_reach :
    Collaboration
    → CollaborationPayment
    → Option String
    → Option String
    → CollaborationPaymentState
    → Bool
may_reach c p key operation pending = true
may_reach c p key operation authorized_held =
    is_some key
    && opt_text_eq p.hold_idempotency_key key
    && is_text p.authorized_by_operation hold_operation
may_reach c p key operation collaboration_active =
    has_hold p && status_in c.status (accepted ∷ in_progress ∷ [])
may_reach c p key operation CollaborationPaymentState.completed =
    is_text p.completion_confirmed_by_operation completion_operation && has_hold p && is_completed c
may_reach c p key operation release_pending =
    is_text p.release_authorized_by_operation release_operation && has_hold p && is_completed c
may_reach c p key operation released = has_hold p && is_completed c
may_reach c p key operation CollaborationPaymentState.cancelled = may_cancel c p operation
may_reach c p key operation refunded =
    is_some operation
    && opt_text_eq p.refund_authorized_by_operation operation
    && (not (is_disputed p)
        || is_text operation dispute_resolution_operation
        || is_text operation refund_operation)
may_reach c p key operation disputed =
    is_text operation dispute_operation
    && is_text p.disputed_by_operation dispute_operation
    && is_some p.disputed_by_user_id

-- A text that is one operation's mark is no other's.
other_text :
    (o : Option String) (a b : String)
    → str_eq a b ≡ false
    → is_text o a ≡ true
    → is_text o b ≡ false
other_text none a b differ h = refl
other_text (some s) a b differ h = subst (λ x. str_eq x b ≡ false) (sym (str_eq_sound s a h)) differ

module _ (c : Collaboration) (p : CollaborationPayment) (key operation : Option String) where
  abbrev to : CollaborationPaymentState → Request
  to target = record { target = target; authorization_key = key; operation = operation }

  guards_permit :
      (target : CollaborationPaymentState)
      → transition_guards c p (to target) ≡ ok tt
      → (state_in target (valid_payment_transitions p.state) && may_reach c p key operation target)
        ≡ true
  unfolding transition_guards trust_guards lifecycle_guards
  guards_permit pending h = ground arith
  guards_permit CollaborationPaymentState.cancelled h = ground arith
  guards_permit _ h = ground arith

  permitted_guards :
      (target : CollaborationPaymentState)
      → (state_in target (valid_payment_transitions p.state) && may_reach c p key operation target)
        ≡ true
      → transition_guards c p (to target) ≡ ok tt
  unfolding transition_guards trust_guards lifecycle_guards
  permitted_guards pending h = ground arith
  permitted_guards CollaborationPaymentState.cancelled h =
      let resolution =
        other_text operation dispute_resolution_operation cancellation_operation refl in
      let resolution' =
        other_text operation dispute_resolution_operation invitee_rejection_operation refl in
      let cancellation =
        other_text operation cancellation_operation invitee_rejection_operation refl in
      let rejection =
        other_text operation invitee_rejection_operation cancellation_operation refl in
      ground arith
  permitted_guards _ h = ground arith

-- The guards of `_apply_transition` let a transition through exactly when the target is among the
-- valid transitions of the payment's state and the table `may_reach` allows it: the mark of the
-- operation for it, the hold, the status of the collaboration and, for a disputed payment, the
-- operations that end a dispute.
pub transition_guards_iff :
    (c : Collaboration) (p : CollaborationPayment) (r : Request)
    → (transition_guards c p r ≡ ok tt) ↔ (
        (state_in r.target (valid_payment_transitions p.state)
          && may_reach c p r.authorization_key r.operation r.target)
        ≡ true)
transition_guards_iff c p r = (
  guards_permit c p r.authorization_key r.operation r.target,
  permitted_guards c p r.authorization_key r.operation r.target,
)
