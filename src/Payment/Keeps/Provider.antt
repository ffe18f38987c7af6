-- ===== src/Payment/Keeps/Provider.antt =====
-- The provider-bound operations and the steps, for any answers of the provider.
use connextion_z_luna.Prelude.{
  ℕ, String, true, ◌≡◌, refl, Option, none, some, List, [], ◌∷◌, not-eq-false,
}
use connextion_z_luna.Exec.{Exec, ◌>>=◌}
use connextion_z_luna.Provider.{ProviderStatus, ProviderResult, PaymentProvider}
use connextion_z_luna.Payment.Model.{Collaboration, CollaborationPayment, state_in, pending}
use connextion_z_luna.Payment.Session.{Session}
use connextion_z_luna.Payment.ProviderCalls.{
  validate_provider_result, bind_reference, initialize_provider_payment, repeat_provider_hold,
  first_provider_hold, authorize_hold_with_provider, cancel_bound_hold, cancel_unresolved_hold,
  cancel_hold_if_present, cancel_provider_hold, refund_unrefunded, refund_with_provider,
  retrieve_provider_payment_status,
}
use connextion_z_luna.Payment.Steps.{binding, IsStepInvariant}
use connextion_z_luna.Payment.Rules.{
  Holds, Holds-pure, Holds-raise, Holds-if, Holds-bind, Holds-guard, Holds-skip, Holds-read,
  Holds-check,
}
use connextion_z_luna.Payment.Effects.{save-Finishes}
use connextion_z_luna.Payment.Keeps.{
  Each, validated, keep-Holds, Finishes-Holds, get_locked_relationship-Holds,
  get_locked_relationship_if_present-Holds, activate_held_payment_if_eligible-Holds,
}
use connextion_z_luna.Payment.Keeps.Hold.{authorize_hold-Holds}
use connextion_z_luna.Payment.Keeps.Resolution.{
  cancel_for_collaboration_resolution-Holds, authorize_refund-Holds,
}

module _ {P : CollaborationPayment → Type 0} (I : IsStepInvariant P)
    (provider : PaymentProvider) where
  validate_provider_result-Holds :
      (r : ProviderResult) (expected : List ProviderStatus) (p : CollaborationPayment)
      (key : Option String)
      → Holds P (validate_provider_result provider r expected p key) (λ _. Unit {0})
  unfolding validate_provider_result
  validate_provider_result-Holds r expected p key = Holds-skip _ _ λ _.
      Holds-skip _ _
        λ _. Holds-skip _ _ λ _. Holds-skip _ _ λ _. Holds-skip _ _ λ _. Holds-check _ (λ _ _. tt)

  -- An accepted answer: the rest of the call.
  answered :
      {B : Type 0} {R : B → Type 0} (r : ProviderResult) (expected : List ProviderStatus)
      (p : CollaborationPayment) (key : Option String) (rest : Exec Session B)
      → Holds P rest R
      → Holds P (validate_provider_result provider r expected p key >>= λ _. rest) R
  answered r expected p key rest k =
      Holds-bind (validate_provider_result-Holds r expected p key) (λ _ _. k)

  bind_reference-Holds :
      (r : ProviderResult) (p : CollaborationPayment)
      → state_in p.state (pending ∷ []) ≡ true
      → P p
      → Holds P (bind_reference provider r p) P
  unfolding bind_reference
  bind_reference-Holds r p unpaid h = Finishes-Holds p.id (
      save-Finishes p.id _ refl
        (I.keep p _ (binding provider.name r.payment_reference_id unpaid) h))

  pub initialize_provider_payment-Holds :
      (id actor : ℕ) (key : String)
      → Holds P (initialize_provider_payment provider id actor key) (λ _. Unit {0})
  unfolding initialize_provider_payment
  initialize_provider_payment-Holds id actor key = Holds-skip _ _ λ _.
      Holds-bind (get_locked_relationship-Holds id) λ found h. validated found.0 found.1 _ (
        Holds-skip _ _ λ _. Holds-guard _ _ _ λ unpaid. Holds-skip _ _ λ r.
          answered r _ found.1 (some key) _ (
            Holds-skip _ _ λ _. Holds-read _ _ λ _. Holds-skip _ _ λ _.
              Holds-bind (bind_reference-Holds r found.1 (not-eq-false _ unpaid) h)
                (λ _ _. Holds-pure r tt)))

  repeat_provider_hold-Holds :
      (c : Collaboration) (p : CollaborationPayment) (key : String)
      → P p
      → Holds P (repeat_provider_hold provider c p key) P
  unfolding repeat_provider_hold
  repeat_provider_hold-Holds c p key h = Holds-skip _ _ λ _.
      Holds-skip _ _
        λ _. Holds-skip _ _ λ _. Holds-skip _ _ λ _. activate_held_payment_if_eligible-Holds I c p h

  first_provider_hold-Holds :
      (p : CollaborationPayment) (id payer : ℕ) (key : String)
      → Holds P (first_provider_hold provider p id payer key) P
  unfolding first_provider_hold
  first_provider_hold-Holds p id payer key = Holds-skip _ _ λ _. Holds-skip _ _ λ _.
      Holds-skip _ _ λ r. answered r _ p (some key) _ (Holds-skip _ _ λ _. authorize_hold-Holds I _)

  pub authorize_hold_with_provider-Holds :
      (id payer : ℕ) (key : String) → Holds P (authorize_hold_with_provider provider id payer key) P
  unfolding authorize_hold_with_provider
  authorize_hold_with_provider-Holds id payer key = Holds-skip _ _ λ _.
      Holds-bind (get_locked_relationship-Holds id) λ found h. validated found.0 found.1 _ (
        Holds-skip _ _ λ _. Holds-skip _ _ λ _.
          Holds-if _ _ _ (λ _. repeat_provider_hold-Holds found.0 found.1 key h)
            (λ _. first_provider_hold-Holds found.1 id payer key))

  cancel_bound_hold-Holds :
      (p : CollaborationPayment) (id : ℕ) (key : String)
      → Holds P (cancel_bound_hold provider p id key) (Each P)
  unfolding cancel_bound_hold
  cancel_bound_hold-Holds p id key = Holds-skip _ _ λ _. Holds-skip _ _ λ _.
      Holds-skip _ _
        λ r. answered r _ p (some key) _ (cancel_for_collaboration_resolution-Holds I id)

  cancel_unresolved_hold-Holds :
      (p : CollaborationPayment) (id : ℕ) (key : String)
      → Holds P (cancel_unresolved_hold provider p id key) (Each P)
  unfolding cancel_unresolved_hold
  cancel_unresolved_hold-Holds p id key =
      let resolved = cancel_for_collaboration_resolution-Holds I id in
      let bound = cancel_bound_hold-Holds p id key in
      search (Holds-if, Holds-raise, resolved, bound) depth 12

  cancel_hold_if_present-Holds :
      (c : Collaboration) (o : Option CollaborationPayment) (id : ℕ) (key : String)
      → Holds P (cancel_hold_if_present provider c o id key) (Each P)
  unfolding cancel_hold_if_present
  cancel_hold_if_present-Holds c none id key = Holds-pure none tt
  cancel_hold_if_present-Holds c (some p) id key =
      validated c p _ (Holds-skip _ _ λ _. cancel_unresolved_hold-Holds p id key)

  pub cancel_provider_hold-Holds :
      (id : ℕ) (key : String) → Holds P (cancel_provider_hold provider id key) (Each P)
  unfolding cancel_provider_hold
  cancel_provider_hold-Holds id key = Holds-skip _ _ λ _.
      Holds-bind (get_locked_relationship_if_present-Holds id)
        λ found _. cancel_hold_if_present-Holds found.0 found.1 id key

  refund_unrefunded-Holds :
      (p : CollaborationPayment) (id : ℕ) (key : String)
      → Holds P (refund_unrefunded provider p id key) P
  unfolding refund_unrefunded
  refund_unrefunded-Holds p id key = Holds-skip _ _ λ _. Holds-skip _ _ λ _.
      Holds-skip _ _
        λ _. Holds-skip _ _ λ r. answered r _ p (some key) _ (authorize_refund-Holds I id)

  pub refund_with_provider-Holds :
      (id : ℕ) (key : String) → Holds P (refund_with_provider provider id key) P
  unfolding refund_with_provider
  refund_with_provider-Holds id key = Holds-skip _ _ λ _.
      Holds-bind (get_locked_relationship-Holds id) λ found h. validated found.0 found.1 _ (
        let refund = refund_unrefunded-Holds found.1 id key in
        search (Holds-if, keep-Holds, refund))

  pub retrieve_provider_payment_status-Holds :
      (id actor : ℕ) → Holds P (retrieve_provider_payment_status provider id actor) (λ _. Unit {0})
  unfolding retrieve_provider_payment_status
  retrieve_provider_payment_status-Holds id actor =
      Holds-bind (get_locked_relationship-Holds id) λ found h. validated found.0 found.1 _ (
        Holds-skip _ _ λ _. Holds-skip _ _ λ _.
          Holds-skip _ _ λ _. Holds-skip _ _ λ r. answered r _ found.1 none _ (Holds-pure r tt))
