-- ===== src/Payment/Sound.antt =====
-- What every payment row satisfies: the CHECK constraints of the table, and the meaning of the final
-- states.
pub mod Stamps
pub mod Steps
pub mod Create
use connextion_z_luna.Prelude.{Bool, true, ◌≡◌, ◌&&◌, ◌||◌, [], ◌∷◌, is_none}
use connextion_z_luna.Payment.Model.{
  CollaborationPayment, CollaborationPaymentState, state_in, released, refunded,
}
use connextion_z_luna.Payment.Constraints.{
  party_constraints, hold_constraints, audit_constraints, dispute_constraints,
}

-- `RELEASED`, `REFUNDED` and `CANCELLED` exclude one another, and only the last two reverse a hold.
unfoldable pub exclusive : CollaborationPayment → Bool
exclusive p =
    (is_none p.released_at || state_in p.state (released ∷ []))
    && (is_none p.refunded_at || state_in p.state (refunded ∷ []))
    && (is_none p.cancelled_at || state_in p.state (CollaborationPaymentState.cancelled ∷ []))
    && (is_none p.hold_reversed_at
        || state_in p.state (CollaborationPaymentState.cancelled ∷ refunded ∷ []))

pub record IsSound (p : CollaborationPayment) : Type 0 where
  pub party : party_constraints p ≡ true
  pub hold : hold_constraints p ≡ true
  pub audit : audit_constraints p ≡ true
  pub dispute : dispute_constraints p ≡ true
  pub excludes : exclusive p ≡ true
