-- ===== src/Payment/History.antt =====
-- What a history of calls does to the payments: the states that a row passes through, the terms that
-- it keeps, and the audits that stand behind a release.
pub mod Origin
pub mod Settled
pub mod Released
pub mod Constrained
use connextion_z_luna.Prelude.{
  ℕ, ℤ, String, Bool, true, false, not, ◌≡◌, refl, ◌⊎◌, inl, inr, ◌&&◌, ◌||◌, List, [], ◌∷◌,
  is_some, is_text, arith, subst, sym, ap, ◌∙◌,
}
use connextion_z_luna.Errors.{ok}
use connextion_z_luna.Payment.Model.{
  Collaboration, CollaborationPayment, CollaborationPaymentState, state_in, pending,
  release_pending, released, refunded,
}
use connextion_z_luna.Payment.Guards.{Request, valid_payment_transitions}
use connextion_z_luna.Payment.Transition.{stamp}
use connextion_z_luna.Payment.Hold.{set_hold}
use connextion_z_luna.Payment.Steps.{
  PaymentStep, holding, moving, confirming, releasing, cancelling, refunding, disputing,
  cancelling_dispute, refunding_dispute, binding,
}
use connextion_z_luna.Payment.Sound.Stamps.{valid-of-Allowed}

-- A state that `VALID_PAYMENT_TRANSITIONS` leads to, in any number of moves.
pub data Reaches (a : CollaborationPaymentState) : CollaborationPaymentState → Type 0 where
  here : Reaches a a
  later :
      (b c : CollaborationPaymentState)
      → Reaches a b
      → state_in c (valid_payment_transitions b) ≡ true
      → Reaches a c

-- The terms of a payment: no call changes them.
abbrev pub terms : CollaborationPayment → ℕ × ℕ × ℕ × ℕ × ℤ × String
terms p = (
  p.id, p.collaboration_id, p.payer_user_id, p.recipient_user_id, p.amount_minor_units, p.currency,
)

terms-stamp : (now : ℕ) (r : Request) (p : CollaborationPayment) → terms (stamp now r p) ≡ terms p
unfolding stamp
terms-stamp now r p = ground arith

state-stamp : (now : ℕ) (r : Request) (p : CollaborationPayment) → (stamp now r p).state ≡ r.target
unfolding stamp
state-stamp now r p = ground arith

-- A step that is a transition of the row `marked`, which has the terms and the state of `p`.
pub record IsMove (p q : CollaborationPayment) : Type 0 where
  pub marked : CollaborationPayment
  pub collaboration : Collaboration
  pub request : Request
  pub now : ℕ
  pub same_terms : terms marked ≡ terms p
  pub state : marked.state ≡ p.state
  pub valid : state_in request.target (valid_payment_transitions p.state) ≡ true
  pub result : q ≡ stamp now request marked

IsMove-of :
    (p m : CollaborationPayment) (c : Collaboration) (r : Request) (now : ℕ)
    → terms m ≡ terms p
    → m.state ≡ p.state
    → state_in r.target (valid_payment_transitions m.state) ≡ true
    → IsMove p (stamp now r m)
IsMove-of p m c r now same state valid = record {
  marked = m;
  collaboration = c;
  request = r;
  now = now;
  same_terms = same;
  state = state;
  valid = subst (λ t. state_in r.target (valid_payment_transitions t) ≡ true) state valid;
  result = refl;
}

-- A step is a transition along the table, or it binds a pending payment to its provider.
pub PaymentStep-cases :
    {p q : CollaborationPayment}
    → PaymentStep p q
    → IsMove p q
      ⊎ ((terms q ≡ terms p) × (q.state ≡ p.state) × (state_in p.state (pending ∷ []) ≡ true))
unfolding set_hold
PaymentStep-cases {p} (holding c r now fresh g) =
    inl (IsMove-of p _ c _ now refl refl (valid-of-Allowed c _ _ g))
PaymentStep-cases {p} (moving c t now u g) =
    inl (IsMove-of p p c _ now refl refl (valid-of-Allowed c _ _ g))
PaymentStep-cases {p} (confirming c now g) =
    inl (IsMove-of p _ c _ now refl refl (valid-of-Allowed c _ _ g))
PaymentStep-cases {p} (releasing c now g) =
    inl (IsMove-of p _ c _ now refl refl (valid-of-Allowed c _ _ g))
PaymentStep-cases {p} (cancelling c o now calm g) =
    inl (IsMove-of p _ c _ now refl refl (valid-of-Allowed c _ _ g))
PaymentStep-cases {p} (refunding c o now a calm g) =
    inl (IsMove-of p _ c _ now refl refl (valid-of-Allowed c _ _ g))
PaymentStep-cases {p} (disputing c actor now g) =
    inl (IsMove-of p _ c _ now refl refl (valid-of-Allowed c _ _ g))
PaymentStep-cases {p} (cancelling_dispute c now d a g) =
    inl (IsMove-of p _ c _ now refl refl (valid-of-Allowed c _ _ g))
PaymentStep-cases {p} (refunding_dispute c o now d a g) =
    inl (IsMove-of p _ c _ now refl refl (valid-of-Allowed c _ _ g))
PaymentStep-cases {p} (binding provider reference unpaid) = inr (refl, refl, unpaid)

pub IsMove-terms : {p q : CollaborationPayment} → IsMove p q → terms q ≡ terms p
IsMove-terms m = ap terms m.result ∙ terms-stamp m.now m.request m.marked ∙ m.same_terms

pub IsMove-valid :
    {p q : CollaborationPayment}
    → IsMove p q
    → state_in q.state (valid_payment_transitions p.state) ≡ true
IsMove-valid {p} m =
    subst (λ t. state_in t (valid_payment_transitions p.state) ≡ true)
      (sym (ap (λ x. x.state) m.result ∙ state-stamp m.now m.request m.marked)) m.valid
