-- ===== src/Payment/Keeps/Completion.antt =====
-- Completion and release, and the steps.
use connextion_z_luna.Prelude.{ℕ, refl, Option, none, some, []}
use connextion_z_luna.Payment.Model.{
  Collaboration, CollaborationPayment, CollaborationPaymentState, release_pending,
}
use connextion_z_luna.Payment.Transition.{set_audit}
use connextion_z_luna.Payment.Service.{plain}
use connextion_z_luna.Payment.Completion.{
  complete_first, complete_active, complete_if_present, confirm_collaboration_completion,
  release_again, release_first, release_completed, authorize_release,
}
use connextion_z_luna.Payment.Steps.{confirming, releasing, confirm, authorize, IsStepInvariant}
use connextion_z_luna.Payment.Rules.{Holds, Holds-pure, Holds-if, Holds-bind, Holds-skip}
use connextion_z_luna.Payment.Effects.{transition-Finishes, Holds-write}
use connextion_z_luna.Payment.Keeps.{
  Each, validated, keep-Holds, some-Holds, get_locked_relationship-Holds,
  get_locked_relationship_if_present-Holds,
}

module _ {P : CollaborationPayment → Type 0} (I : IsStepInvariant P) (c : Collaboration)
    (p : CollaborationPayment) (h : P p) where
  complete_first-Holds : Holds P (complete_first c p) P
  unfolding complete_first set_audit
  complete_first-Holds = Holds-skip _ _ λ _. Holds-skip _ _ λ _. Holds-write (confirm p) _ (
      transition-Finishes c (confirm p) (confirm p) (plain CollaborationPaymentState.completed) []
        refl λ now g. I.keep p _ (confirming c now g) h)

  complete_active-Holds : Holds P (complete_active c p) P
  unfolding complete_active
  complete_active-Holds = search (Holds-if, keep-Holds, complete_first-Holds)

  release_first-Holds : Holds P (release_first c p) P
  unfolding release_first set_audit
  release_first-Holds = Holds-skip _ _ λ _. Holds-skip _ _ λ _. Holds-skip _ _ λ _.
      Holds-write (authorize p) _ (
        transition-Finishes c (authorize p) (authorize p) (plain release_pending) [] refl
          λ now g. I.keep p _ (releasing c now g) h)

  release_again-Holds : Holds P (release_again p) P
  unfolding release_again
  release_again-Holds = Holds-skip _ _ λ _. Holds-skip _ _ λ _. Holds-pure p h

  release_completed-Holds : Holds P (release_completed c p) P
  unfolding release_completed
  release_completed-Holds = search (Holds-if, release_again-Holds, release_first-Holds)

module _ {P : CollaborationPayment → Type 0} (I : IsStepInvariant P) where
  complete_if_present-Holds :
      (c : Collaboration) (o : Option CollaborationPayment)
      → Each P o
      → Holds P (complete_if_present c o) (Each P)
  unfolding complete_if_present
  complete_if_present-Holds c none h = Holds-pure none tt
  complete_if_present-Holds c (some p) h =
      validated c p _ (some-Holds I (complete_active-Holds I c p h))

  pub confirm_collaboration_completion-Holds :
      (id : ℕ) → Holds P (confirm_collaboration_completion id) (Each P)
  unfolding confirm_collaboration_completion
  confirm_collaboration_completion-Holds id =
      Holds-bind (get_locked_relationship_if_present-Holds id)
        λ found h. Holds-skip _ _ λ _. complete_if_present-Holds found.0 found.1 h

  pub authorize_release-Holds : (id : ℕ) → Holds P (authorize_release id) P
  unfolding authorize_release
  authorize_release-Holds id = Holds-bind (get_locked_relationship-Holds id) λ found h.
      validated found.0 found.1 _ (Holds-skip _ _ λ _. release_completed-Holds I found.0 found.1 h)
