-- ===== src/Payment/Keeps/Hold.antt =====
-- `authorize_hold` and the steps, the race over the key included.
use connextion_z_luna.Prelude.{String, refl, Option, none, some, [], is_text}
use connextion_z_luna.Errors.{Error}
use connextion_z_luna.Payment.Model.{Collaboration, CollaborationPayment}
use connextion_z_luna.Payment.Session.{Session, get_by_hold_idempotency_key}
use connextion_z_luna.Payment.Transition.{set_audit}
use connextion_z_luna.Payment.Hold.{
  HoldRequest, authorize_hold, hold_by_key, replay_hold, repeat_hold, first_hold, set_hold,
  hold_transition, on_integrity_error, replay_after_race,
}
use connextion_z_luna.Payment.Steps.{holding, IsStepInvariant}
use connextion_z_luna.Payment.Rules.{
  IsClean, Holds, find-All, Holds-raise, Holds-if, Holds-bind, Holds-gets, Holds-guard, Holds-skip,
}
use connextion_z_luna.Payment.Effects.{
  transition-Finishes, Holds-write, Finishes-bind, Finishes-attempt, Recovers, Recovers-raise,
  Recovers-rollback,
}
use connextion_z_luna.Payment.Keeps.{
  Each, Each-find, validated, get_locked_relationship-Holds,
  activate_held_payment_if_eligible-Holds,
}

module _ {P : CollaborationPayment → Type 0} where
  get_by_hold_idempotency_key-Each :
      (key : String) (s : Session) → IsClean P s → Each P (get_by_hold_idempotency_key key s)
  unfolding get_by_hold_idempotency_key
  get_by_hold_idempotency_key-Each key s h =
      Each-find P _ (λ p e. find-All P (λ x. is_text x.hold_idempotency_key key) s.rows p h.rows e)

  module _ (I : IsStepInvariant P) (c : Collaboration) (q : HoldRequest) where
    replay_after_race-Holds :
        (o : Option CollaborationPayment) → Each P o → Holds P (replay_after_race c q o) P
    unfolding replay_after_race
    replay_after_race-Holds none h = Holds-raise _
    replay_after_race-Holds (some p) h =
        let active = activate_held_payment_if_eligible-Holds I c p h in
        search (Holds-if, Holds-raise, active)

    on_integrity_error-Recovers : (e : Error) → Recovers P P (on_integrity_error c q e)
    unfolding on_integrity_error
    on_integrity_error-Recovers Error.integrity_error = Recovers-rollback _ (
        Holds-gets (Each P) (get_by_hold_idempotency_key-Each q.idempotency_key)
          replay_after_race-Holds)
    on_integrity_error-Recovers e = Recovers-raise e

    first_hold-Holds : (p : CollaborationPayment) → P p → Holds P (first_hold c p q) P
    unfolding first_hold set_audit
    first_hold-Holds p h = Holds-guard _ _ _ λ fresh. Holds-guard _ _ _ λ _.
        Holds-write (set_hold q p) _ (
          Finishes-attempt
            (Finishes-bind
              (transition-Finishes c (set_hold q p) (set_hold q p) (hold_transition q) [] refl
                λ now g. I.keep p _ (holding c q now fresh g) h)
              (activate_held_payment_if_eligible-Holds I c))
            on_integrity_error-Recovers)

    replay_hold-Holds :
        (p existing : CollaborationPayment) → P existing → Holds P (replay_hold c p existing q) P
    unfolding replay_hold
    replay_hold-Holds p existing h = Holds-skip _ _ λ _.
        Holds-skip _ _
          λ _. Holds-skip _ _ λ _. activate_held_payment_if_eligible-Holds I c existing h

    repeat_hold-Holds : (p : CollaborationPayment) → P p → Holds P (repeat_hold c p q) P
    unfolding repeat_hold
    repeat_hold-Holds p h =
        let active = activate_held_payment_if_eligible-Holds I c p h in
        search (Holds-if, Holds-raise, Holds-skip, active)

    hold_by_key-Holds :
        (p : CollaborationPayment) (o : Option CollaborationPayment)
        → P p
        → Each P o
        → Holds P (hold_by_key c p q o) P
    unfolding hold_by_key
    hold_by_key-Holds p (some existing) h e = replay_hold-Holds p existing e
    hold_by_key-Holds p none h e =
        let repeated = repeat_hold-Holds p h in
        let first = first_hold-Holds p h in search (Holds-if, repeated, first)

  pub authorize_hold-Holds :
      (I : IsStepInvariant P) (q : HoldRequest) → Holds P (authorize_hold q) P
  unfolding authorize_hold
  authorize_hold-Holds I q = Holds-skip _ _ λ _.
      Holds-bind (get_locked_relationship-Holds q.collaboration_id) λ found h.
        validated found.0 found.1 _ (
          Holds-skip _ _ λ _.
            Holds-gets (Each P) (get_by_hold_idempotency_key-Each q.idempotency_key)
              (λ o e. hold_by_key-Holds I found.0 q found.1 o h e))
