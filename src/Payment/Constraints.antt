-- ===== src/Payment/Constraints.antt =====
-- The CHECK constraints of the table `collaboration_payments`, as the database tests them when a row
-- is flushed (backend/app/models/collaboration_payment.py, lines 44 to 128).
use connextion_z_luna.Prelude.{
  ℤ, String, pos, negsuc, ltb, leb, Bool, true, false, not, ◌&&◌, ◌||◌, ◌==◌, Option, none, some,
  [], ◌∷◌, is_some, str_len, all_chars,
}
use connextion_z_luna.Payment.Model.{CollaborationPayment, CollaborationPaymentState, state_in}

-- `length(currency) = 3 AND currency = upper(currency)`: no lower-case letter.
unfoldable pub is_upper : String → Bool
unfolding str_len all_chars
is_upper s = str_len s == 3 && all_chars (λ c. not (leb b'a' c && leb c b'z')) s

abbrev pub is_positive : ℤ → Bool
is_positive (pos n) = ltb 0 n
is_positive (negsuc n) = false

-- `(a IS NULL AND b IS NULL) OR (a IS NOT NULL AND b IS NOT NULL)`.
abbrev is_pair {ℓ κ} : {A : Type ℓ} {B : Type κ} → Option A → Option B → Bool
is_pair none none = true
is_pair (some a) (some b) = true
is_pair _ _ = false

-- `a IS NULL OR b IS NOT NULL`.
abbrev needs {ℓ κ} : {A : Type ℓ} {B : Type κ} → Option A → Option B → Bool
needs none b = true
needs (some a) b = is_some b

module _ (p : CollaborationPayment) where
  unfoldable pub party_constraints : Bool
  party_constraints =
      is_positive p.amount_minor_units
      && is_upper p.currency
      && not (p.payer_user_id == p.recipient_user_id)
      && is_pair p.payment_provider p.provider_reference

  unfoldable pub hold_constraints : Bool
  hold_constraints =
      is_pair p.hold_idempotency_key p.authorized_at
      && is_pair p.hold_idempotency_key p.authorized_by_operation
      && (state_in p.state
            (CollaborationPaymentState.pending ∷ CollaborationPaymentState.cancelled ∷ [])
          || (is_some p.hold_idempotency_key
              && is_some p.authorized_at
              && is_some p.authorized_by_operation))
      && is_pair p.hold_reversed_at p.hold_reversed_by_operation

  unfoldable pub audit_constraints : Bool
  audit_constraints =
      needs p.completion_confirmed_by_operation p.completed_at
      && needs p.release_authorized_by_operation p.release_pending_at
      && is_pair p.refund_authorized_at p.refund_authorized_by_operation
      && (not (state_in p.state (CollaborationPaymentState.refunded ∷ []))
          || (is_some p.refund_authorized_at && is_some p.refund_authorized_by_operation))
      && needs p.cancelled_by_operation p.cancelled_at

  unfoldable pub dispute_constraints : Bool
  dispute_constraints =
      (not (state_in p.state (CollaborationPaymentState.disputed ∷ []))
        || (is_some p.disputed_at && is_some p.disputed_by_operation))
      && is_pair p.dispute_resolved_at p.dispute_resolved_by_operation

  unfoldable pub check_constraints : Bool
  check_constraints =
      party_constraints && hold_constraints && audit_constraints && dispute_constraints
