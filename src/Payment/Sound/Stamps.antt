-- ===== src/Payment/Sound/Stamps.antt =====
-- What one transition does to each group of a row's facts.
use connextion_z_luna.Prelude.{ℕ, String, true, false, ◌≡◌, ◌||◌, Option, [], ◌∷◌, is_some, arith}
use connextion_z_luna.Errors.{ok}
use connextion_z_luna.Payment.Model.{
  Collaboration, CollaborationPayment, CollaborationPaymentState, state_in, refunded, pending,
  authorized_held, disputed, release_pending,
}
use connextion_z_luna.Payment.Constraints.{
  party_constraints, hold_constraints, audit_constraints, dispute_constraints,
}
use connextion_z_luna.Payment.Guards.{Request, valid_payment_transitions, transition_guards}
use connextion_z_luna.Payment.Transition.{stamp}
use connextion_z_luna.Payment.Service.{plain, by_operation}
use connextion_z_luna.Payment.Hold.{HoldRequest, set_hold, hold_transition}
use connextion_z_luna.Payment.Steps.{
  confirm, authorize, mark_cancelled, mark_refunded, mark_disputed, mark_resolved,
}
use connextion_z_luna.Payment.Audit.{dispute_operation}
use connextion_z_luna.Payment.Sound.{exclusive}

pub stamp-party :
    (now : ℕ) (r : Request) (p : CollaborationPayment)
    → party_constraints p ≡ true
    → party_constraints (stamp now r p) ≡ true
unfolding stamp party_constraints
stamp-party now r p h = ground arith

pub valid-of-Allowed :
    (c : Collaboration) (p : CollaborationPayment) (r : Request)
    → transition_guards c p r ≡ ok tt
    → state_in r.target (valid_payment_transitions p.state) ≡ true
unfolding transition_guards
valid-of-Allowed c p r h = ground arith

module _ (now : ℕ) (k o : Option String) (p : CollaborationPayment) where
  abbrev pub stamped : CollaborationPaymentState → CollaborationPayment
  stamped t = stamp now (record { target = t; authorization_key = k; operation = o }) p

  -- A valid move, other than the hold itself, keeps the hold's audit.
  pub stamp-hold :
      (t : CollaborationPaymentState)
      → state_in t (valid_payment_transitions p.state) ≡ true
      → state_in t (authorized_held ∷ []) ≡ false
      → hold_constraints p ≡ true
      → hold_constraints (stamped t) ≡ true
  unfolding stamp hold_constraints
  stamp-hold pending v n h = ground arith
  stamp-hold _ v n h = ground arith

  pub stamp-exclusive :
      (t : CollaborationPaymentState)
      → state_in t (valid_payment_transitions p.state) ≡ true
      → exclusive p ≡ true
      → exclusive (stamped t) ≡ true
  unfolding stamp exclusive
  stamp-exclusive pending v h = ground arith
  stamp-exclusive _ v h = ground arith

  -- A move that sets no audit keeps the audits.
  pub stamp-audit :
      (t : CollaborationPaymentState)
      → state_in t (refunded ∷ []) ≡ false
      → audit_constraints p ≡ true
      → audit_constraints (stamped t) ≡ true
  unfolding stamp audit_constraints
  stamp-audit pending n h = ground arith
  stamp-audit _ n h = ground arith

  pub stamp-dispute :
      (t : CollaborationPaymentState)
      → state_in t (disputed ∷ []) ≡ false
      → dispute_constraints p ≡ true
      → dispute_constraints (stamped t) ≡ true
  unfolding stamp dispute_constraints
  stamp-dispute pending n h = ground arith
  stamp-dispute _ n h = ground arith

module _ (p : CollaborationPayment) (c : Collaboration) (now : ℕ) where
  pub holding-hold :
      (q : HoldRequest)
      → (is_some p.authorized_at || is_some p.hold_idempotency_key) ≡ false
      → hold_constraints p ≡ true
      → hold_constraints (stamp now (hold_transition q) (set_hold q p)) ≡ true
  unfolding stamp hold_constraints set_hold
  holding-hold q fresh h = ground arith

  pub confirming-audit :
      audit_constraints p ≡ true
      → audit_constraints (stamp now (plain CollaborationPaymentState.completed) (confirm p)) ≡ true
  unfolding stamp audit_constraints
  confirming-audit h = ground arith

  pub releasing-audit :
      audit_constraints p ≡ true
      → audit_constraints (stamp now (plain release_pending) (authorize p)) ≡ true
  unfolding stamp audit_constraints
  releasing-audit h = ground arith

  pub cancelling-audit :
      (o : String)
      → audit_constraints p ≡ true
      → audit_constraints
          (stamp now (by_operation CollaborationPaymentState.cancelled o) (mark_cancelled o p))
        ≡ true
  unfolding stamp audit_constraints
  cancelling-audit o h = ground arith

  pub refunding-audit :
      (o : String)
      → audit_constraints p ≡ true
      → audit_constraints (stamp now (by_operation refunded o) (mark_refunded o p)) ≡ true
  unfolding stamp audit_constraints
  refunding-audit o h = ground arith

  pub disputing-dispute :
      (actor : ℕ)
      → dispute_constraints p ≡ true
      → dispute_constraints
          (stamp now (by_operation disputed dispute_operation) (mark_disputed actor p))
        ≡ true
  unfolding stamp dispute_constraints
  disputing-dispute actor h = ground arith

  -- A resolved dispute has both halves of its audit.
  pub resolving-dispute :
      (t : CollaborationPaymentState) (o : String)
      → state_in t (CollaborationPaymentState.cancelled ∷ refunded ∷ []) ≡ true
      → state_in p.state (disputed ∷ []) ≡ true
      → dispute_constraints p ≡ true
      → dispute_constraints (stamp now (by_operation t o) (mark_resolved p)) ≡ true
  unfolding stamp dispute_constraints
  resolving-dispute CollaborationPaymentState.cancelled o aim d h = ground arith
  resolving-dispute refunded o aim d h = ground arith
  resolving-dispute _ o aim d h = cc
