-- ===== src/Payment/History/Settled.antt =====
-- Rows in a final state: `RELEASED`, `CANCELLED`, `REFUNDED`.
use connextion_z_luna.Prelude.{
  true, false, ◌≡◌, sym, subst, ap, ◌==◌, inl, inr, List, [], ◌∷◌, All, any, arith,
}
use connextion_z_luna.Payment.Model.{
  CollaborationPayment, CollaborationPaymentState, state_in, pending,
}
use connextion_z_luna.Payment.Session.{Session}
use connextion_z_luna.Payment.Guards.{valid_payment_transitions}
use connextion_z_luna.Payment.Hold.{is_final}
use connextion_z_luna.Payment.Calls.{Event, creates_in, history}
use connextion_z_luna.Payment.Steps.{PaymentStep}
use connextion_z_luna.Payment.Rules.{IsClean}
use connextion_z_luna.Payment.Keeps.Calls.{history-IsClean}
use connextion_z_luna.Payment.History.{PaymentStep-cases, IsMove-valid, IsMove-terms}

no_move_from_final :
    (s t : CollaborationPaymentState)
    → is_final s ≡ true
    → state_in t (valid_payment_transitions s) ≡ true
    → ⊥
no_move_from_final CollaborationPaymentState.released t f v = cc
no_move_from_final CollaborationPaymentState.cancelled t f v = cc
no_move_from_final CollaborationPaymentState.refunded t f v = cc
no_move_from_final _ t f v = cc

not_pending :
    (s : CollaborationPaymentState) → is_final s ≡ true → state_in s (pending ∷ []) ≡ true → ⊥
not_pending s f u = ground arith

-- No step leaves a final state.
PaymentStep-final : {p q : CollaborationPayment} → PaymentStep p q → is_final p.state ≡ true → ⊥
PaymentStep-final {p} {q} step f = elim (PaymentStep-cases step) [
  | inl m ↦ no_move_from_final p.state q.state f (IsMove-valid m)
  | inr (t, s, unpaid) ↦ not_pending p.state f unpaid
]

-- The rows with the identifier of `o` are `o`.
abbrev pub IsFrozen : CollaborationPayment → CollaborationPayment → Type 0
IsFrozen o p = (p.id == o.id) ≡ true → p ≡ o

module _ (o : CollaborationPayment) (final : is_final o.state ≡ true) where
  IsFrozen-step : (p q : CollaborationPayment) → PaymentStep p q → IsFrozen o p → IsFrozen o q
  IsFrozen-step p q step h same = absurd (
      PaymentStep-final step (
        subst (λ x. is_final x.state ≡ true)
          (sym (h (subst (λ n. (n == o.id) ≡ true) (id_of step) same))) final))
    where
      id_of : PaymentStep p q → q.id ≡ p.id
      id_of step = elim (PaymentStep-cases step) [
        | inl m ↦ ap (λ t. t.0) (IsMove-terms m)
        | inr (t, s, unpaid) ↦ ap (λ t. t.0) t
      ]

-- Once a payment is `RELEASED`, `CANCELLED` or `REFUNDED`, no history of calls that creates no payment
-- changes anything of it: from a database where each row with its identifier is that row, each
-- such row is still that row, in every column.
pub history-IsFrozen :
    (o : CollaborationPayment) (events : List Event) (s : Session)
    → is_final o.state ≡ true
    → any creates_in events ≡ false
    → IsClean (IsFrozen o) s
    → All (IsFrozen o) (history events s).rows
history-IsFrozen o events s final existing h =
    (history-IsClean (record { keep = IsFrozen-step o final }) events s (λ e. absurd (ground arith))
      h).rows
