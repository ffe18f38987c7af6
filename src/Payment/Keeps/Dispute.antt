-- ===== src/Payment/Keeps/Dispute.antt =====
-- Disputes, what a party or the system asks for, and the steps.
use connextion_z_luna.Prelude.{
  ℕ, String, true, false, ◌≡◌, refl, ◌&&◌, [], ◌∷◌, is_none, not, arith, not-eq-false,
}
use connextion_z_luna.Errors.{ok}
use connextion_z_luna.Payment.Model.{
  Collaboration, CollaborationPayment, CollaborationPaymentState, state_in, disputed, refunded,
}
use connextion_z_luna.Payment.Audit.{
  dispute_operation, dispute_resolution_operation, require_dispute_audit,
}
use connextion_z_luna.Payment.Transition.{disputed_by, disputed_by_user, set_audit, transition}
use connextion_z_luna.Payment.Service.{by_operation}
use connextion_z_luna.Payment.Dispute.{
  initiate_dispute_locked, start_dispute, transition_by_party, transition_by_system,
  resolution_updates, resolved_before, resolve_disputed, resolve_dispute,
}
use connextion_z_luna.Payment.Steps.{
  disputing, cancelling_dispute, refunding_dispute, mark_cancelled, mark_refunded, mark_resolved,
  mark_disputed, IsStepInvariant,
}
use connextion_z_luna.Payment.Rules.{
  Holds, Holds-pure, Holds-raise, Holds-if, Holds-bind, Holds-guard, Holds-skip, Holds-read,
  Holds-lift,
}
use connextion_z_luna.Payment.Effects.{transition-Finishes}
use connextion_z_luna.Payment.Keeps.{
  validated, keep-Holds, Finishes-Holds, get_locked_relationship-Holds, moving-Holds,
}

disputed_at_of_audit :
    (p : CollaborationPayment) {u : Unit {0}}
    → require_dispute_audit p ≡ ok u
    → is_none p.disputed_at ≡ false
unfolding require_dispute_audit
disputed_at_of_audit p h = ground arith

module _ {P : CollaborationPayment → Type 0} (I : IsStepInvariant P) (c : Collaboration)
    (p : CollaborationPayment) (h : P p) where
  start_dispute-Holds : (actor : ℕ) → Holds P (start_dispute c p actor) P
  unfolding start_dispute set_audit
  start_dispute-Holds actor = Holds-skip _ _ λ _. Finishes-Holds p.id (
      transition-Finishes c p (mark_disputed actor p) _
        (disputed_by_user actor ∷ disputed_by dispute_operation ∷ []) refl
        λ now g. I.keep p _ (disputing c actor now g) h)

  initiate_dispute_locked-Holds : (actor : ℕ) → Holds P (initiate_dispute_locked c p actor) P
  unfolding initiate_dispute_locked
  initiate_dispute_locked-Holds actor =
      let started = start_dispute-Holds actor in
      Holds-skip _ _
        λ _. Holds-read _ _ λ _. Holds-skip _ _ λ _. search (Holds-if, keep-Holds, started)

  resolved_before-Holds :
      (target : CollaborationPaymentState) → Holds P (resolved_before p target) P
  unfolding resolved_before
  resolved_before-Holds target = Holds-skip _ _ λ _. Holds-skip _ _ λ _. Holds-pure p h

  resolving-Holds :
      (target : CollaborationPaymentState)
      → state_in target (CollaborationPaymentState.cancelled ∷ refunded ∷ []) ≡ true
      → state_in p.state (disputed ∷ []) ≡ true
      → is_none p.disputed_at ≡ false
      → (not (state_in target (CollaborationPaymentState.cancelled ∷ []))
          && is_none p.authorized_at)
        ≡ false
      → Holds P
          (transition c p
            (by_operation target dispute_resolution_operation)
            (resolution_updates target))
          P
  unfolding set_audit resolution_updates
  resolving-Holds CollaborationPaymentState.cancelled aim dispute audited authorized =
      Finishes-Holds p.id (
        transition-Finishes c p (mark_cancelled dispute_resolution_operation (mark_resolved p)) _
          (resolution_updates CollaborationPaymentState.cancelled) refl
          λ now g. I.keep p _ (cancelling_dispute c now dispute audited g) h)
  resolving-Holds refunded aim dispute audited authorized = Finishes-Holds p.id (
      transition-Finishes c p (mark_resolved (mark_refunded dispute_resolution_operation p)) _
        (resolution_updates refunded) refl
        λ now g.
          I.keep p _ (refunding_dispute c dispute_resolution_operation now dispute authorized g) h)
  resolving-Holds _ aim dispute audited authorized = cc

  resolve_disputed-Holds :
      (target : CollaborationPaymentState)
      → state_in target (CollaborationPaymentState.cancelled ∷ refunded ∷ []) ≡ true
      → Holds P (resolve_disputed c p target) P
  unfolding resolve_disputed
  resolve_disputed-Holds target aim = Holds-guard _ _ _ λ dispute. Holds-lift _ λ _ audited.
      Holds-guard _ _ _ λ authorized.
        resolving-Holds target aim (not-eq-false _ dispute) (disputed_at_of_audit p audited)
          authorized

module _ {P : CollaborationPayment → Type 0} (I : IsStepInvariant P) where
  pub resolve_dispute-Holds :
      (id : ℕ) (resolution : String) → Holds P (resolve_dispute id resolution) P
  unfolding resolve_dispute
  resolve_dispute-Holds id resolution = Holds-bind (get_locked_relationship-Holds id) λ found h.
      validated found.0 found.1 _ (
        Holds-skip _ _ λ target. Holds-guard _ _ _ λ aim.
          let before = resolved_before-Holds I found.0 found.1 h target in
          let disputing = resolve_disputed-Holds I found.0 found.1 h target (not-eq-false _ aim) in
          search (Holds-if, before, disputing))

  pub transition_by_party-Holds :
      (id actor : ℕ) (new_state : String) → Holds P (transition_by_party id actor new_state) P
  unfolding transition_by_party
  transition_by_party-Holds id actor new_state =
      Holds-bind (get_locked_relationship-Holds id) λ found h. validated found.0 found.1 _ (
        Holds-skip _ _ λ _. Holds-skip _ _ λ target.
          let started = initiate_dispute_locked-Holds I found.0 found.1 h actor in
          search (Holds-if, Holds-raise, started))

  pub transition_by_system-Holds :
      (id : ℕ) (new_state : String) → Holds P (transition_by_system id new_state) P
  unfolding transition_by_system
  transition_by_system-Holds id new_state = Holds-bind (get_locked_relationship-Holds id) λ found h.
      validated found.0 found.1 _ (
        Holds-skip _ _ λ target.
          Holds-guard _ _ _ λ undedicated. moving-Holds I found.0 found.1 target undedicated h)
