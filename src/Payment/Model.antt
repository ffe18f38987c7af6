-- ===== src/Payment/Model.antt =====
-- The rows of a collaboration and of its payment: backend/app/models/collaboration.py and
-- backend/app/models/collaboration_payment.py. Identifiers and times are numbers that are only
-- compared; the mark of the operation that wrote an audit is the text that the column holds.
use connextion_z_luna.Prelude.{ℕ, ℤ, String, Bool, Option, List, ◌==◌, any}

pub data CollaborationStatus : Type 0 where
  proposed accepted declined in_progress completed cancelled : CollaborationStatus

pub data CollaborationPaymentState : Type 0 where
  pending authorized_held collaboration_active completed : CollaborationPaymentState
  release_pending released cancelled refunded disputed : CollaborationPaymentState

pub record Collaboration : Type 0 where
  pub id : ℕ
  pub initiator_id : ℕ
  pub status : CollaborationStatus
  pub is_deleted : Bool
  pub completed_at : Option String

pub record CollaborationParticipant : Type 0 where
  pub collaboration_id : ℕ
  pub user_id : ℕ
  pub is_accepted : Bool

pub record CollaborationPayment : Type 0 where
  pub id : ℕ
  pub collaboration_id : ℕ
  pub payer_user_id : ℕ
  pub recipient_user_id : ℕ
  pub amount_minor_units : ℤ
  pub currency : String
  pub state : CollaborationPaymentState
  pub payment_provider : Option String
  pub provider_reference : Option String
  pub hold_idempotency_key : Option String
  pub authorization_reference : Option String
  pub authorized_by_operation : Option String
  pub authorized_at : Option ℕ
  pub hold_reversed_at : Option ℕ
  pub hold_reversed_by_operation : Option String
  pub collaboration_started_at : Option ℕ
  pub completed_at : Option ℕ
  pub completion_confirmed_by_operation : Option String
  pub release_pending_at : Option ℕ
  pub release_authorized_by_operation : Option String
  pub released_at : Option ℕ
  pub cancelled_at : Option ℕ
  pub refunded_at : Option ℕ
  pub disputed_at : Option ℕ
  pub cancelled_by_operation : Option String
  pub refund_authorized_at : Option ℕ
  pub refund_authorized_by_operation : Option String
  pub disputed_by_user_id : Option ℕ
  pub disputed_by_operation : Option String
  pub dispute_resolved_at : Option ℕ
  pub dispute_resolved_by_operation : Option String

-- An enum member by its place, for equality tests.
abbrev pub state_index : CollaborationPaymentState → ℕ
state_index CollaborationPaymentState.pending = 0
state_index CollaborationPaymentState.authorized_held = 1
state_index CollaborationPaymentState.collaboration_active = 2
state_index CollaborationPaymentState.completed = 3
state_index CollaborationPaymentState.release_pending = 4
state_index CollaborationPaymentState.released = 5
state_index CollaborationPaymentState.cancelled = 6
state_index CollaborationPaymentState.refunded = 7
state_index CollaborationPaymentState.disputed = 8

abbrev status_index : CollaborationStatus → ℕ
status_index CollaborationStatus.proposed = 0
status_index CollaborationStatus.accepted = 1
status_index CollaborationStatus.declined = 2
status_index CollaborationStatus.in_progress = 3
status_index CollaborationStatus.completed = 4
status_index CollaborationStatus.cancelled = 5

-- `state in {...}` and `status in {...}`.
abbrev pub state_in : CollaborationPaymentState → List CollaborationPaymentState → Bool
state_in p states = any (λ q. state_index p == state_index q) states

abbrev pub status_in : CollaborationStatus → List CollaborationStatus → Bool
status_in p statuses = any (λ q. status_index p == status_index q) statuses

-- The text of a state, as the messages and the database hold it.
abbrev pub state_value : CollaborationPaymentState → String
state_value CollaborationPaymentState.pending = "PENDING"
state_value CollaborationPaymentState.authorized_held = "AUTHORIZED_HELD"
state_value CollaborationPaymentState.collaboration_active = "COLLABORATION_ACTIVE"
state_value CollaborationPaymentState.completed = "COMPLETED"
state_value CollaborationPaymentState.release_pending = "RELEASE_PENDING"
state_value CollaborationPaymentState.released = "RELEASED"
state_value CollaborationPaymentState.cancelled = "CANCELLED"
state_value CollaborationPaymentState.refunded = "REFUNDED"
state_value CollaborationPaymentState.disputed = "DISPUTED"
