-- ===== src/Payment/Transition.antt =====
-- `_apply_transition` and `_transition` of backend/services/collaboration_payment_service.py.
use connextion_z_luna.Prelude.{
  ℕ, String, Bool, ◌&&◌, none, some, List, [], ◌∷◌, is_none, is_some, is_text, is_falsy,
  if◌then◌else◌,
}
use connextion_z_luna.Errors.{Error, Result, ok, err, message}
use connextion_z_luna.Exec.{Exec, raise, lift, gets, attempt, ◌>>=◌, ◌>>◌}
use connextion_z_luna.Payment.Model.{
  Collaboration, CollaborationPayment, CollaborationPaymentState, state_in, pending,
  authorized_held, collaboration_active, release_pending, released, refunded, disputed,
}
use connextion_z_luna.Payment.Session.{Session, set_attributes, save}
use connextion_z_luna.Payment.Audit.{dispute_resolution_operation}
use connextion_z_luna.Payment.Guards.{Request, transition_guards}

-- The column of `timestamp_by_state`; no column for `PENDING`.
unfoldable pub set_timestamp :
    CollaborationPaymentState → ℕ → CollaborationPayment → CollaborationPayment
set_timestamp pending now p = p
set_timestamp authorized_held now p = record p { authorized_at = some now }
set_timestamp collaboration_active now p = record p { collaboration_started_at = some now }
set_timestamp CollaborationPaymentState.completed now p = record p { completed_at = some now }
set_timestamp release_pending now p = record p { release_pending_at = some now }
set_timestamp released now p = record p { released_at = some now }
set_timestamp CollaborationPaymentState.cancelled now p = record p { cancelled_at = some now }
set_timestamp refunded now p = record p { refunded_at = some now; refund_authorized_at = some now }
set_timestamp disputed now p = record p { disputed_at = some now }

abbrev is_reversal : CollaborationPaymentState → Bool
is_reversal t = state_in t (CollaborationPaymentState.cancelled ∷ refunded ∷ [])

unfoldable pub set_dispute_resolution : ℕ → CollaborationPayment → CollaborationPayment
set_dispute_resolution now p = record p {
  dispute_resolved_at =
      if is_reversal p.state
        && is_some p.disputed_at
        && is_text p.dispute_resolved_by_operation dispute_resolution_operation
        && is_none p.dispute_resolved_at
      then some now
      else p.dispute_resolved_at;
}

abbrev default_operation : CollaborationPaymentState → String
default_operation refunded = "internal_payment_transition_refunded"
default_operation _ = "internal_payment_transition_cancelled"

-- `operation or f"internal_payment_transition_{target.value.lower()}"`, for the two reversals.
unfoldable pub reversal_operation : Request → String
reversal_operation r = elim r.operation [
  | none ↦ default_operation r.target
  | some operation ↦ if is_falsy (some operation) then default_operation r.target else operation
]

-- The test under which a transition reverses a hold.
abbrev reverses_hold : Request → CollaborationPayment → Bool
reverses_hold r p = is_some p.authorized_at && is_reversal r.target && is_none p.hold_reversed_at

unfoldable pub set_hold_reversal : ℕ → Request → CollaborationPayment → CollaborationPayment
set_hold_reversal now r p = record p {
  hold_reversed_at = if reverses_hold r p then some now else p.hold_reversed_at;
  hold_reversed_by_operation =
      if reverses_hold r p then some (reversal_operation r) else p.hold_reversed_by_operation;
}

-- The row after the writes of `_apply_transition`.
unfoldable pub stamp : ℕ → Request → CollaborationPayment → CollaborationPayment
unfolding set_timestamp set_dispute_resolution set_hold_reversal
stamp now r p =
    set_hold_reversal now r
      (set_dispute_resolution now (set_timestamp r.target now (record p { state = r.target })))

-- The part of `_apply_transition` below the guards.
unfoldable pub commit_stamp : Request → CollaborationPayment → Exec Session CollaborationPayment
commit_stamp r p = do now ← gets (λ s. s.now); set_attributes (stamp now r p); save (stamp now r p)

unfoldable pub apply_transition :
    Collaboration → CollaborationPayment → Request → Exec Session CollaborationPayment
apply_transition c p r = do lift (transition_guards c p r); commit_stamp r p

-- The entries of `audit_updates`; `unmanaged` is a field outside `managed_fields`.
pub data AuditUpdate : Type 0 where
  cancelled_by refund_authorized_by disputed_by dispute_resolved_by : String → AuditUpdate
  disputed_by_user : ℕ → AuditUpdate
  unmanaged : String → AuditUpdate

unfoldable pub set_audit : List AuditUpdate → CollaborationPayment → Result CollaborationPayment
set_audit [] p = ok p
set_audit (AuditUpdate.cancelled_by operation ∷ rest) p =
    set_audit rest (record p { cancelled_by_operation = some operation })
set_audit (AuditUpdate.refund_authorized_by operation ∷ rest) p =
    set_audit rest (record p { refund_authorized_by_operation = some operation })
set_audit (AuditUpdate.disputed_by operation ∷ rest) p =
    set_audit rest (record p { disputed_by_operation = some operation })
set_audit (AuditUpdate.dispute_resolved_by operation ∷ rest) p =
    set_audit rest (record p { dispute_resolved_by_operation = some operation })
set_audit (AuditUpdate.disputed_by_user user ∷ rest) p =
    set_audit rest (record p { disputed_by_user_id = some user })
set_audit (AuditUpdate.unmanaged field ∷ rest) p =
    err (Error.value_error (message "Unsupported payment audit field: " field ""))

-- `except Exception: setattr(payment, field, value) ...; raise`. A guard raises before anything but
-- managed fields was written, so what the handler restores is the whole row. A refused flush has
-- rolled the transaction back; what the handler then sets on the expired object is never flushed.
unfoldable pub restore : CollaborationPayment → Error → Exec Session CollaborationPayment
restore p Error.integrity_error = raise Error.integrity_error
restore p e = set_attributes p >> raise e

unfoldable pub transition :
    Collaboration
    → CollaborationPayment
    → Request
    → List AuditUpdate
    → Exec Session CollaborationPayment
transition c p r updates =
    attempt (do q ← lift (set_audit updates p); apply_transition c q r) (restore p)
