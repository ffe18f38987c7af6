-- ===== src/Payment/Keeps/Calls.antt =====
-- Calls, requests and histories, and the steps.
use connextion_z_luna.Prelude.{true, ◌≡◌, refl, List, [], ◌∷◌, any, arith}
use connextion_z_luna.Errors.{Result, ok, err}
use connextion_z_luna.Exec.{Exec}
use connextion_z_luna.Payment.Model.{CollaborationPayment}
use connextion_z_luna.Payment.Session.{Session}
use connextion_z_luna.Payment.Calls.{
  Call, Event, served, elsewhere, perform, run, creates, creates_in, close, serve, handle, history,
}
use connextion_z_luna.Payment.Steps.{IsStepInvariant}
use connextion_z_luna.Payment.Rules.{IsClean, Holds, Yields, Holds-pure, Holds-bind}
use connextion_z_luna.Payment.Keeps.{activate_for_collaboration_acceptance-Holds}
use connextion_z_luna.Payment.Keeps.Hold.{authorize_hold-Holds}
use connextion_z_luna.Payment.Keeps.Resolution.{
  authorize_refund-Holds, cancel_for_collaboration_resolution-Holds,
  cancel_for_invitee_decline-Holds,
}
use connextion_z_luna.Payment.Keeps.Dispute.{
  resolve_dispute-Holds, transition_by_party-Holds, transition_by_system-Holds,
}
use connextion_z_luna.Payment.Keeps.Completion.{
  confirm_collaboration_completion-Holds, authorize_release-Holds,
}
use connextion_z_luna.Payment.Keeps.Provider.{
  initialize_provider_payment-Holds, authorize_hold_with_provider-Holds, cancel_provider_hold-Holds,
  refund_with_provider-Holds, retrieve_provider_payment_status-Holds,
}
use connextion_z_luna.Payment.Keeps.Create.{Creates, get_payment_for_collaboration-Holds}

module _ {P : CollaborationPayment → Type 0} where
  performed :
      {A : Type 0} {Q : A → Type 0} {m : Exec Session A}
      → Holds P m Q
      → Holds P (perform m) (λ _. Unit {0})
  performed k = Holds-bind k (λ _ _. Holds-pure tt tt)

  module _ (I : IsStepInvariant P) where
    run-Holds :
        (call : Call) → (creates call ≡ true → Creates P) → Holds P (run call) (λ _. Unit {0})
    unfolding run
    run-Holds (Call.creating id actor recipient amount currency) new =
        performed (new refl id actor recipient amount currency)
    run-Holds (Call.reading id actor) new = performed (get_payment_for_collaboration-Holds id actor)
    run-Holds (Call.holding q) new = performed (authorize_hold-Holds I q)
    run-Holds (Call.activating id) new =
        performed (activate_for_collaboration_acceptance-Holds I id)
    run-Holds (Call.asking id actor state) new =
        performed (transition_by_party-Holds I id actor state)
    run-Holds (Call.moving id state) new = performed (transition_by_system-Holds I id state)
    run-Holds (Call.cancelling id) new = performed (cancel_for_collaboration_resolution-Holds I id)
    run-Holds (Call.declining id user) new = performed (cancel_for_invitee_decline-Holds I id user)
    run-Holds (Call.refunding id) new = performed (authorize_refund-Holds I id)
    run-Holds (Call.resolving id state) new = performed (resolve_dispute-Holds I id state)
    run-Holds (Call.completing id) new = performed (confirm_collaboration_completion-Holds I id)
    run-Holds (Call.releasing id) new = performed (authorize_release-Holds I id)
    run-Holds (Call.initializing_at provider id actor key) new =
        performed (initialize_provider_payment-Holds I provider id actor key)
    run-Holds (Call.holding_at provider id payer key) new =
        performed (authorize_hold_with_provider-Holds I provider id payer key)
    run-Holds (Call.cancelling_at provider id key) new =
        performed (cancel_provider_hold-Holds I provider id key)
    run-Holds (Call.refunding_at provider id key) new =
        performed (refund_with_provider-Holds I provider id key)
    run-Holds (Call.reading_at provider id actor) new =
        performed (retrieve_provider_payment_status-Holds I provider id actor)

    closed :
        (r : Result (Unit {0})) (s : Session)
        → Yields P (λ _. Unit {0}) (r, s)
        → IsClean P (close (r, s))
    closed (ok u) s h = record { rows = h.1.rows; committed = h.1.rows }
    closed (err e) s h = record { rows = h.committed; committed = h.committed }

    -- A request that ends in a commit or a rollback leaves the session clean.
    pub serve-IsClean :
        (call : Call) (s : Session)
        → (creates call ≡ true → Creates P)
        → IsClean P s
        → IsClean P (serve call s)
    unfolding serve
    serve-IsClean call s new h =
        let (r, s') = run call s in closed r s' ((run-Holds call new).at s h)

    handle-IsClean :
        (e : Event) (s : Session)
        → (creates_in e ≡ true → Creates P)
        → IsClean P s
        → IsClean P (handle e s)
    unfolding handle
    handle-IsClean (served call) s new h = serve-IsClean call s new h
    handle-IsClean (elsewhere c m now id) s new h = record {
      rows = h.rows;
      committed = h.committed;
    }

    pub history-IsClean :
        (events : List Event) (s : Session)
        → (any creates_in events ≡ true → Creates P)
        → IsClean P s
        → IsClean P (history events s)
    unfolding history
    history-IsClean [] s new h = h
    history-IsClean (e ∷ events) s new h =
        history-IsClean events (handle e s) (λ later. new (ground arith))
          (handle-IsClean e s (λ now. new (ground arith)) h)
