-- ===== src/Payment/Calls.antt =====
-- The calls of the payment service, each in the transaction of a request: `get_db` of
-- backend/app/db/session.py commits after a return and rolls back after a raise.
use connextion_z_luna.Prelude.{ℕ, ℤ, String, Bool, true, false, List, [], ◌∷◌}
use connextion_z_luna.Errors.{Result, ok, err}
use connextion_z_luna.Exec.{Exec, pure, ◌>>=◌}
use connextion_z_luna.Provider.{PaymentProvider}
use connextion_z_luna.Payment.Model.{Collaboration, CollaborationParticipant}
use connextion_z_luna.Payment.Session.{Session}
use connextion_z_luna.Payment.Hold.{HoldRequest, authorize_hold}
use connextion_z_luna.Payment.Service.{
  create_pending_payment, get_payment_for_collaboration, activate_for_collaboration_acceptance,
}
use connextion_z_luna.Payment.Resolution.{
  authorize_refund, cancel_for_collaboration_resolution, cancel_for_invitee_decline,
}
use connextion_z_luna.Payment.Dispute.{transition_by_party, transition_by_system, resolve_dispute}
use connextion_z_luna.Payment.Completion.{confirm_collaboration_completion, authorize_release}
use connextion_z_luna.Payment.ProviderCalls.{
  initialize_provider_payment, authorize_hold_with_provider, cancel_provider_hold,
  refund_with_provider, retrieve_provider_payment_status,
}

-- A call with its arguments; the provider that a call reaches comes with it.
pub data Call : Type 0 where
  creating : ℕ → ℕ → ℕ → ℤ → String → Call
  reading : ℕ → ℕ → Call
  holding : HoldRequest → Call
  activating : ℕ → Call
  asking : ℕ → ℕ → String → Call
  moving : ℕ → String → Call
  cancelling : ℕ → Call
  declining : ℕ → ℕ → Call
  refunding : ℕ → Call
  resolving : ℕ → String → Call
  completing : ℕ → Call
  releasing : ℕ → Call
  initializing_at : PaymentProvider → ℕ → ℕ → String → Call
  holding_at : PaymentProvider → ℕ → ℕ → String → Call
  cancelling_at : PaymentProvider → ℕ → String → Call
  refunding_at : PaymentProvider → ℕ → String → Call
  reading_at : PaymentProvider → ℕ → ℕ → Call

-- The call for its effect.
abbrev pub perform : {A : Type 0} → Exec Session A → Exec Session (Unit {0})
perform m = m >>= λ _. pure tt

unfoldable pub run : Call → Exec Session (Unit {0})
run (Call.creating id actor recipient amount currency) =
    perform (create_pending_payment id actor recipient amount currency)
run (Call.reading id actor) = perform (get_payment_for_collaboration id actor)
run (Call.holding q) = perform (authorize_hold q)
run (Call.activating id) = perform (activate_for_collaboration_acceptance id)
run (Call.asking id actor state) = perform (transition_by_party id actor state)
run (Call.moving id state) = perform (transition_by_system id state)
run (Call.cancelling id) = perform (cancel_for_collaboration_resolution id)
run (Call.declining id user) = perform (cancel_for_invitee_decline id user)
run (Call.refunding id) = perform (authorize_refund id)
run (Call.resolving id state) = perform (resolve_dispute id state)
run (Call.completing id) = perform (confirm_collaboration_completion id)
run (Call.releasing id) = perform (authorize_release id)
run (Call.initializing_at provider id actor key) =
    perform (initialize_provider_payment provider id actor key)
run (Call.holding_at provider id payer key) =
    perform (authorize_hold_with_provider provider id payer key)
run (Call.cancelling_at provider id key) = perform (cancel_provider_hold provider id key)
run (Call.refunding_at provider id key) = perform (refund_with_provider provider id key)
run (Call.reading_at provider id actor) =
    perform (retrieve_provider_payment_status provider id actor)

abbrev pub creates : Call → Bool
creates (Call.creating id actor recipient amount currency) = true
creates _ = false

-- `get_db`: commit, or roll back.
abbrev pub close : Result (Unit {0}) × Session → Session
close (ok u, s) = record s { committed = s.rows }
close (err e, s) = record s { rows = s.committed }

unfoldable pub serve : Call → Session → Session
serve call s = close (run call s)

-- What happens to the database: a call is served, or the rest of the program moves on, which changes
-- collaborations, participants, the time and the identifier to come, but no payment.
pub data Event : Type 0 where
  served : Call → Event
  elsewhere : List Collaboration → List CollaborationParticipant → ℕ → ℕ → Event

abbrev pub creates_in : Event → Bool
creates_in (served call) = creates call
creates_in (elsewhere collaborations participants now new_id) = false

unfoldable pub handle : Event → Session → Session
handle (served call) s = serve call s
handle (elsewhere collaborations participants now new_id) s = record s {
  collaborations = collaborations;
  participants = participants;
  now = now;
  new_id = new_id;
}

unfoldable pub history : List Event → Session → Session
history [] s = s
history (e ∷ events) s = history events (handle e s)
