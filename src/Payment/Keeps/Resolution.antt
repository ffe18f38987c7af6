-- ===== src/Payment/Keeps/Resolution.antt =====
-- Cancellation and refund, and the steps.
use connextion_z_luna.Prelude.{
  ℕ, String, Bool, true, false, ◌≡◌, refl, Option, none, some, [], ◌∷◌, is_none, inl, inr,
  Bool-cases,
}
use connextion_z_luna.Exec.{pure}
use connextion_z_luna.Payment.Model.{
  Collaboration, CollaborationPayment, CollaborationPaymentState, state_in, disputed, refunded,
}
use connextion_z_luna.Payment.Audit.{
  cancellation_operation, cancellation_refund_operation, invitee_rejection_operation,
  refund_operation,
}
use connextion_z_luna.Payment.Transition.{cancelled_by, set_audit, transition}
use connextion_z_luna.Payment.Service.{by_operation}
use connextion_z_luna.Payment.Resolution.{
  refund_updates, authorize_refund_locked, authorize_refund, cancel_resolved, cancel_if_present,
  cancel_for_collaboration_resolution, cancel_declined, decline_if_recipient,
  cancel_for_invitee_decline,
}
use connextion_z_luna.Payment.Steps.{
  cancelling, refunding, refunding_dispute, mark_cancelled, mark_refunded, mark_resolved,
  IsStepInvariant,
}
use connextion_z_luna.Payment.Rules.{
  Holds, Holds-pure, Holds-raise, Holds-if, Holds-bind, Holds-guard, Holds-skip, Holds-read,
}
use connextion_z_luna.Payment.Effects.{transition-Finishes}
use connextion_z_luna.Payment.Keeps.{
  Each, validated, keep-Holds, Finishes-Holds, some-Holds, get_locked_relationship-Holds,
  get_locked_relationship_if_present-Holds,
}

calm_resolves : {b : Bool} → b ≡ true → b ≡ false → false ≡ true
calm_resolves e calm = cc

module _ {P : CollaborationPayment → Type 0} (I : IsStepInvariant P) (c : Collaboration)
    (p : CollaborationPayment) (h : P p) where
  -- A payment that is not disputed is cancelled.
  cancelling-Holds :
      (operation : String)
      → state_in p.state (disputed ∷ []) ≡ false
      → Holds P
          (transition c p
            (by_operation CollaborationPaymentState.cancelled operation)
            (cancelled_by operation ∷ []))
          P
  unfolding set_audit
  cancelling-Holds operation calm = Finishes-Holds p.id (
      transition-Finishes c p (mark_cancelled operation p) _ (cancelled_by operation ∷ []) refl
        λ now g. I.keep p _ (cancelling c operation now calm g) h)

  refunding-Holds :
      (operation : String) (resolve_dispute : Bool)
      → (state_in p.state (disputed ∷ []) ≡ true → resolve_dispute ≡ true)
      → is_none p.authorized_at ≡ false
      → Holds P
          (transition c p
            (by_operation refunded operation)
            (refund_updates p operation resolve_dispute))
          P
  refunding-Holds operation resolve_dispute resolves authorized =
      elim (Bool-cases (state_in p.state (disputed ∷ []))) [
        | inl dispute ↦ Finishes-Holds p.id (
            transition-Finishes c p (mark_resolved (mark_refunded operation p)) _
              (refund_updates p operation resolve_dispute)
              (unfold refund_updates set_audit in rw (dispute, resolves dispute))
              λ now g. I.keep p _ (refunding_dispute c operation now dispute authorized g) h)
        | inr calm ↦ Finishes-Holds p.id (
            transition-Finishes c p (mark_refunded operation p) _
              (refund_updates p operation resolve_dispute)
              (unfold refund_updates set_audit in rw calm)
              λ now g. I.keep p _ (refunding c operation now authorized calm g) h)
      ]

  pub authorize_refund_locked-Holds :
      (operation : String) (resolve_dispute : Bool)
      → (state_in p.state (disputed ∷ []) ≡ true → resolve_dispute ≡ true)
      → Holds P (authorize_refund_locked c p operation resolve_dispute) P
  unfolding authorize_refund_locked
  authorize_refund_locked-Holds operation resolve_dispute resolves =
      let refund = refunding-Holds operation resolve_dispute resolves in
      search (Holds-if, Holds-skip, Holds-guard, keep-Holds, refund)

  cancel_resolved-Holds : Holds P (cancel_resolved c p) P
  unfolding cancel_resolved
  cancel_resolved-Holds =
      let cancel = cancelling-Holds cancellation_operation in
      let refund = λ (calm : state_in p.state (disputed ∷ []) ≡ false).
        authorize_refund_locked-Holds cancellation_refund_operation false
          (λ e. calm_resolves e calm) in
      search (Holds-if, Holds-raise, keep-Holds, cancel, refund) depth 9

  cancel_declined-Holds : Holds P (cancel_declined c p) P
  unfolding cancel_declined
  cancel_declined-Holds =
      let cancel = cancelling-Holds invitee_rejection_operation in
      search (Holds-if, Holds-raise, keep-Holds, cancel) depth 9

module _ {P : CollaborationPayment → Type 0} (I : IsStepInvariant P) where
  pub authorize_refund-Holds : (id : ℕ) → Holds P (authorize_refund id) P
  unfolding authorize_refund
  authorize_refund-Holds id = Holds-bind (get_locked_relationship-Holds id) λ found h.
      validated found.0 found.1 _
        (authorize_refund_locked-Holds I found.0 found.1 h refund_operation true (λ _. refl))

  cancel_if_present-Holds :
      (c : Collaboration) (o : Option CollaborationPayment)
      → Each P o
      → Holds P (cancel_if_present c o) (Each P)
  unfolding cancel_if_present
  cancel_if_present-Holds c none h = Holds-pure none tt
  cancel_if_present-Holds c (some p) h =
      validated c p _ (some-Holds I (cancel_resolved-Holds I c p h))

  pub cancel_for_collaboration_resolution-Holds :
      (id : ℕ) → Holds P (cancel_for_collaboration_resolution id) (Each P)
  unfolding cancel_for_collaboration_resolution
  cancel_for_collaboration_resolution-Holds id =
      Holds-bind (get_locked_relationship_if_present-Holds id)
        λ found h. Holds-skip _ _ λ _. cancel_if_present-Holds found.0 found.1 h

  decline_if_recipient-Holds :
      (c : Collaboration) (o : Option CollaborationPayment) (user : ℕ)
      → Each P o
      → Holds P (decline_if_recipient c o user) (Each P)
  unfolding decline_if_recipient
  decline_if_recipient-Holds c none user h = Holds-pure none tt
  decline_if_recipient-Holds c (some p) user h =
      let absent : Holds P (pure none) (Each P) = Holds-pure none tt in
      let declined = validated c p _ (some-Holds I (cancel_declined-Holds I c p h)) in
      search (Holds-if, absent, declined)

  pub cancel_for_invitee_decline-Holds :
      (id user : ℕ) → Holds P (cancel_for_invitee_decline id user) (Each P)
  unfolding cancel_for_invitee_decline
  cancel_for_invitee_decline-Holds id user =
      Holds-bind (get_locked_relationship_if_present-Holds id) λ found h. Holds-skip _ _ λ _.
        Holds-read _ _ λ _.
          Holds-read _ _ λ _. Holds-skip _ _ λ _. decline_if_recipient-Holds found.0 found.1 user h
