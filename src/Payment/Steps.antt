-- ===== src/Payment/Steps.antt =====
-- The changes of one payment row that the service makes: the abstract state machine that the
-- operations of backend/services/collaboration_payment_service.py implement.
use connextion_z_luna.Prelude.{
  ℕ, String, true, false, ◌≡◌, ◌||◌, some, List, [], ◌∷◌, is_none, is_some,
}
use connextion_z_luna.Errors.{ok}
use connextion_z_luna.Payment.Model.{
  Collaboration, CollaborationPayment, CollaborationPaymentState, state_in, pending,
  authorized_held, release_pending, refunded, disputed,
}
use connextion_z_luna.Payment.Audit.{
  completion_operation, release_operation, dispute_operation, dispute_resolution_operation,
}
use connextion_z_luna.Payment.Guards.{Request, transition_guards}
use connextion_z_luna.Payment.Transition.{stamp}
use connextion_z_luna.Payment.Service.{plain, by_operation}
use connextion_z_luna.Payment.Hold.{HoldRequest, set_hold, hold_transition}

-- The row as the audit updates of a call leave it.
abbrev pub confirm : CollaborationPayment → CollaborationPayment
confirm p = record p { completion_confirmed_by_operation = some completion_operation }

abbrev pub authorize : CollaborationPayment → CollaborationPayment
authorize p = record p { release_authorized_by_operation = some release_operation }

abbrev pub mark_cancelled : String → CollaborationPayment → CollaborationPayment
mark_cancelled operation p = record p { cancelled_by_operation = some operation }

abbrev pub mark_refunded : String → CollaborationPayment → CollaborationPayment
mark_refunded operation p = record p { refund_authorized_by_operation = some operation }

abbrev pub mark_resolved : CollaborationPayment → CollaborationPayment
mark_resolved p = record p { dispute_resolved_by_operation = some dispute_resolution_operation }

abbrev pub mark_disputed : ℕ → CollaborationPayment → CollaborationPayment
mark_disputed actor p = record p {
  disputed_by_user_id = some actor;
  disputed_by_operation = some dispute_operation;
}

-- The targets that have a dedicated operation.
abbrev pub dedicated : List CollaborationPaymentState
dedicated =
    authorized_held ∷ CollaborationPaymentState.completed ∷ release_pending
    ∷ CollaborationPaymentState.cancelled ∷ refunded ∷ disputed ∷ []

abbrev Allowed : Collaboration → CollaborationPayment → Request → Type 0
Allowed c p r = transition_guards c p r ≡ ok tt

pub data PaymentStep (p : CollaborationPayment) : CollaborationPayment → Type 0 where
  holding :
      (c : Collaboration) (q : HoldRequest) (now : ℕ)
      → (is_some p.authorized_at || is_some p.hold_idempotency_key) ≡ false
      → Allowed c (set_hold q p) (hold_transition q)
      → PaymentStep p (stamp now (hold_transition q) (set_hold q p))
  moving :
      (c : Collaboration) (target : CollaborationPaymentState) (now : ℕ)
      → state_in target dedicated ≡ false
      → Allowed c p (plain target)
      → PaymentStep p (stamp now (plain target) p)
  confirming :
      (c : Collaboration) (now : ℕ)
      → Allowed c (confirm p) (plain CollaborationPaymentState.completed)
      → PaymentStep p (stamp now (plain CollaborationPaymentState.completed) (confirm p))
  releasing :
      (c : Collaboration) (now : ℕ)
      → Allowed c (authorize p) (plain release_pending)
      → PaymentStep p (stamp now (plain release_pending) (authorize p))
  cancelling :
      (c : Collaboration) (operation : String) (now : ℕ)
      → state_in p.state (disputed ∷ []) ≡ false
      → Allowed c
          (mark_cancelled operation p)
          (by_operation CollaborationPaymentState.cancelled operation)
      → PaymentStep p (
          stamp now
            (by_operation CollaborationPaymentState.cancelled operation)
            (mark_cancelled operation p))
  refunding :
      (c : Collaboration) (operation : String) (now : ℕ)
      → is_none p.authorized_at ≡ false
      → state_in p.state (disputed ∷ []) ≡ false
      → Allowed c (mark_refunded operation p) (by_operation refunded operation)
      → PaymentStep p (stamp now (by_operation refunded operation) (mark_refunded operation p))
  disputing :
      (c : Collaboration) (actor now : ℕ)
      → Allowed c (mark_disputed actor p) (by_operation disputed dispute_operation)
      → PaymentStep p (stamp now (by_operation disputed dispute_operation) (mark_disputed actor p))
  cancelling_dispute :
      (c : Collaboration) (now : ℕ)
      → state_in p.state (disputed ∷ []) ≡ true
      → is_none p.disputed_at ≡ false
      → Allowed c
          (mark_cancelled dispute_resolution_operation (mark_resolved p))
          (by_operation CollaborationPaymentState.cancelled dispute_resolution_operation)
      → PaymentStep p (
          stamp now
            (by_operation CollaborationPaymentState.cancelled dispute_resolution_operation)
            (mark_cancelled dispute_resolution_operation (mark_resolved p)))
  refunding_dispute :
      (c : Collaboration) (operation : String) (now : ℕ)
      → state_in p.state (disputed ∷ []) ≡ true
      → is_none p.authorized_at ≡ false
      → Allowed c (mark_resolved (mark_refunded operation p)) (by_operation refunded operation)
      → PaymentStep p
          (stamp now (by_operation refunded operation) (mark_resolved (mark_refunded operation p)))
  binding :
      (provider reference : String)
      → state_in p.state (pending ∷ []) ≡ true
      → PaymentStep p
          (record p { payment_provider = some provider; provider_reference = some reference })

-- What holds of a row and survives every change.
pub record IsStepInvariant (P : CollaborationPayment → Type 0) : Type 0 where
  pub keep : (p q : CollaborationPayment) → PaymentStep p q → P p → P q
