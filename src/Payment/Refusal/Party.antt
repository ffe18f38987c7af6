-- ===== src/Payment/Refusal/Party.antt =====
-- `transition_by_party`: what a party may ask for.
use connextion_z_luna.Prelude.{ℕ, String, true, false, ◌≡◌, [], ◌∷◌, str_eq, arith}
use connextion_z_luna.Errors.{ok}
use connextion_z_luna.Payment.Model.{
  Collaboration, CollaborationPayment, CollaborationPaymentState, state_in, disputed,
}
use connextion_z_luna.Payment.Session.{Session}
use connextion_z_luna.Payment.Resolution.{coerce_state}
use connextion_z_luna.Payment.Dispute.{initiate_dispute_locked, transition_by_party}
use connextion_z_luna.Payment.Refusal.{
  Refuses, Refuses-raise, Refuses-if, Refuses-bind, Refuses-lift, validate_relationship-Reads,
  get_locked_relationship-Reads,
}

undisputed_target :
    (text : String) (target : CollaborationPaymentState)
    → str_eq text "DISPUTED" ≡ false
    → coerce_state text ≡ ok target
    → state_in target (disputed ∷ []) ≡ false
unfolding coerce_state
undisputed_target text target other e = ground arith

-- A party's request for any state but `DISPUTED`, a valid state or not, is refused and changes nothing,
-- whatever the payment, its collaboration and the party are.
pub transition_by_party-Refuses :
    (collaboration_id actor : ℕ) (new_state : String) (s : Session)
    → str_eq new_state "DISPUTED" ≡ false
    → Refuses (transition_by_party collaboration_id actor new_state) s
unfolding transition_by_party
transition_by_party-Refuses id actor new_state s other =
    Refuses-bind s (get_locked_relationship-Reads s id) λ found _.
      Refuses-bind s (validate_relationship-Reads s found.0 found.1) λ _ _.
        Refuses-lift s _ _ λ _ _. Refuses-lift s _ _ λ target e.
          let never =
            disputed_never found.0 found.1 target (undisputed_target new_state target other e) in
          search (Refuses-if, Refuses-raise, never)
  where
    disputed_never :
        (c : Collaboration) (p : CollaborationPayment) (target : CollaborationPaymentState)
        → state_in target (disputed ∷ []) ≡ false
        → state_in target (disputed ∷ []) ≡ true
        → Refuses (initiate_dispute_locked c p actor) s
    disputed_never c p target calm dispute = absurd (ground arith)
