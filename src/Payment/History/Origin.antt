-- ===== src/Payment/History/Origin.antt =====
-- Where the rows of a database come from, after any history.
use connextion_z_luna.Prelude.{
  ◌≡◌, refl, sym, subst, ◌∙◌, inl, inr, false, any, arith, List, [], ◌∷◌, All,
}
use mathlib.Core.List.{Memᴰ}
use connextion_z_luna.Payment.Model.{CollaborationPayment, CollaborationPaymentState}
use connextion_z_luna.Payment.Session.{Session}
use connextion_z_luna.Payment.Calls.{Event, creates_in, history}
use connextion_z_luna.Payment.Steps.{PaymentStep}
use connextion_z_luna.Payment.Keeps.Calls.{history-IsClean}
use connextion_z_luna.Payment.History.{
  Reaches, here, later, terms, PaymentStep-cases, IsMove-terms, IsMove-valid,
}

-- A row that was there, with the same terms, in a state that leads to this one.
pub record HasPast (old : List CollaborationPayment) (p : CollaborationPayment) : Type 0 where
  pub origin : CollaborationPayment
  pub is_old : Memᴰ origin old
  pub same_terms : terms p ≡ terms origin
  pub reaches : Reaches origin.state p.state

module _ (old : List CollaborationPayment) where
  Reaches-step :
      {a : CollaborationPaymentState} {p q : CollaborationPayment}
      → PaymentStep p q
      → Reaches a p.state
      → Reaches a q.state
  Reaches-step {a} {p} {q} step h = elim (PaymentStep-cases step) [
    | inl m ↦ later p.state q.state h (IsMove-valid m)
    | inr bound ↦ subst (Reaches a) (sym bound.1) h
  ]

  terms-step : {p q : CollaborationPayment} → PaymentStep p q → terms q ≡ terms p
  terms-step step = elim (PaymentStep-cases step) [ inl m ↦ IsMove-terms m | inr bound ↦ bound.0 ]

  HasPast-step : (p q : CollaborationPayment) → PaymentStep p q → HasPast old p → HasPast old q
  HasPast-step p q step h = record {
    origin = h.origin;
    is_old = h.is_old;
    same_terms = terms-step step ∙ h.same_terms;
    reaches = Reaches-step step h.reaches;
  }

past_of : (o : CollaborationPayment) (old : List CollaborationPayment) → Memᴰ o old → HasPast old o
past_of o old among = record { origin = o; is_old = among; same_terms = refl; reaches = here }

All-HasPast :
    (old rows : List CollaborationPayment)
    → ((o : CollaborationPayment) → Memᴰ o rows → Memᴰ o old)
    → All (HasPast old) rows
All-HasPast old [] into = tt
All-HasPast old (x ∷ rows) into = (
  past_of x old (into x (Memᴰ.head refl)),
  All-HasPast old rows (λ o among. into o (Memᴰ.tail among)),
)

-- After any sequence of served calls that creates no payment, from a database without open
-- transactions and interleaved with any changes elsewhere, every payment has the identifier,
-- collaboration, parties, amount and currency of a payment that was there before, and a state that
-- `VALID_PAYMENT_TRANSITIONS` leads to from that one's.
pub history-HasPast :
    (events : List Event) (s : Session)
    → any creates_in events ≡ false
    → s.rows ≡ s.committed
    → All (HasPast s.committed) (history events s).rows
history-HasPast events s existing closed =
    let old = All-HasPast s.committed s.committed (λ o among. among) in
    (history-IsClean (record { keep = HasPast-step s.committed }) events s
      (λ e. absurd (ground arith))
      (record { rows = subst (All (HasPast s.committed)) (sym closed) old; committed = old })).rows
