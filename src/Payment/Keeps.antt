-- ===== src/Payment/Keeps.antt =====
-- The lemmas that carry an invariant of the steps through the operations: reads and activation.
pub mod Hold
pub mod Resolution
pub mod Dispute
pub mod Completion
pub mod Provider
pub mod Create
pub mod Calls
use connextion_z_luna.Prelude.{
  ℕ, ℤ, String, Bool, true, false, not, ◌≡◌, refl, subst, ◌&&◌, ◌||◌, ◌==◌, Option, none, some,
  List, [], ◌∷◌, is_none, is_some, is_text, arith, if◌then◌else◌,
}
use connextion_z_luna.Errors.{Error, Result, ok, err, raise_if}
use connextion_z_luna.Exec.{Exec, pure, raise, lift, gets, attempt, on_error, ◌>>=◌, ◌>>◌, continue}
use connextion_z_luna.Payment.Model.{
  Collaboration, CollaborationPayment, CollaborationPaymentState, state_in, collaboration_active,
}
use connextion_z_luna.Payment.Session.{
  Session, get_for_collaboration, get_collaboration, get_participant_user_ids,
}
use connextion_z_luna.Payment.Transition.{set_audit, transition}
use connextion_z_luna.Payment.Service.{
  validate_relationship, get_locked_relationship_if_present, get_locked_relationship, plain,
  activate_held_payment_if_eligible, activate_if_present, activate_for_collaboration_acceptance,
  require_some,
}
use connextion_z_luna.Payment.Resolution.{keep}
use connextion_z_luna.Payment.Steps.{PaymentStep, dedicated, moving, IsStepInvariant}
use connextion_z_luna.Payment.Rules.{
  IsClean, IsWorking, Holds, Finishes, IsClean-IsWorking, find-All, Holds-pure, Holds-raise,
  Holds-if, Holds-bind, Holds-lift, Holds-gets, Holds-read, Holds-guard, Holds-check, Holds-skip,
}
use connextion_z_luna.Payment.Effects.{transition-Finishes}

module _ {P : CollaborationPayment → Type 0} {A : Type 0} {Q : A → Type 0} where
  pub Finishes-Holds : (id : ℕ) {m : Exec Session A} → Finishes P id m Q → Holds P m Q
  Finishes-Holds id t = record { at = λ s h. t.at s (IsClean-IsWorking id h) }

-- A payment that may be absent.
abbrev pub Each : (CollaborationPayment → Type 0) → Option CollaborationPayment → Type 0
Each P none = Unit
Each P (some p) = P p

module _ (P : CollaborationPayment → Type 0) where
  Each-find :
      (o : Option CollaborationPayment) → ((p : CollaborationPayment) → o ≡ some p → P p) → Each P o
  Each-find none k = tt
  Each-find (some p) k = k p refl

  pub get_for_collaboration-Each :
      (id : ℕ) (s : Session) → IsClean P s → Each P (get_for_collaboration id s)
  unfolding get_for_collaboration
  get_for_collaboration-Each id s h =
      Each-find _ (λ p e. find-All P (λ x. x.collaboration_id == id) s.rows p h.rows e)

  pub require_some-Each :
      (o : Option CollaborationPayment) (text : String) (p : CollaborationPayment)
      → Each P o
      → require_some o text ≡ ok p
      → P p
  require_some-Each none text p h e = cc
  require_some-Each (some x) text p h e = subst P (ok_eq e) h
    where
      ok_eq : ok x ≡ ok p → x ≡ p
      ok_eq e = cc

module _ {P : CollaborationPayment → Type 0} where
  validate_relationship-Holds :
      (c : Collaboration) (p : CollaborationPayment)
      → Holds P (validate_relationship c p) (λ _. Unit {0})
  unfolding validate_relationship
  validate_relationship-Holds c p = Holds-read _ _ (λ ids. Holds-check _ (λ _ _. tt))

  -- A validated payment: the rest of the call.
  pub validated :
      {B : Type 0} {R : B → Type 0} (c : Collaboration) (p : CollaborationPayment)
      (rest : Exec Session B)
      → Holds P rest R
      → Holds P (validate_relationship c p >>= λ _. rest) R
  validated c p rest k = Holds-bind (validate_relationship-Holds c p) (λ _ _. k)

  pub get_locked_relationship_if_present-Holds :
      (id : ℕ) → Holds P (get_locked_relationship_if_present id) (λ found. Each P found.1)
  unfolding get_locked_relationship_if_present
  get_locked_relationship_if_present-Holds id = Holds-read _ _ λ found.
      Holds-skip _ _
        λ c. Holds-gets (Each P) (get_for_collaboration-Each P id) λ p h. Holds-pure _ h

  pub get_locked_relationship-Holds :
      (id : ℕ) → Holds P (get_locked_relationship id) (λ found. P found.1)
  unfolding get_locked_relationship
  get_locked_relationship-Holds id =
      Holds-bind (get_locked_relationship_if_present-Holds id)
        λ found h. Holds-lift _ λ p e. Holds-pure _ (require_some-Each P found.1 _ p h e)

  -- A payment that is returned as it was, if its audit stands.
  pub keep-Holds :
      (audit : Result (Unit {0})) (p : CollaborationPayment) → P p → Holds P (keep audit p) P
  keep-Holds audit p h = Holds-skip audit _ (λ _. Holds-pure p h)

  module _ (I : IsStepInvariant P) where
    pub moving-Holds :
        (c : Collaboration) (p : CollaborationPayment) (target : CollaborationPaymentState)
        → state_in target dedicated ≡ false
        → P p
        → Holds P (transition c p (plain target) []) P
    unfolding set_audit
    moving-Holds c p target undedicated h = Finishes-Holds p.id (
        transition-Finishes c p p (plain target) [] refl
          λ now g. I.keep p _ (moving c target now undedicated g) h)

    pub activate_held_payment_if_eligible-Holds :
        (c : Collaboration) (p : CollaborationPayment)
        → P p
        → Holds P (activate_held_payment_if_eligible c p) P
    unfolding activate_held_payment_if_eligible
    activate_held_payment_if_eligible-Holds c p h =
        let active = moving-Holds c p collaboration_active refl h in
        search (Holds-if, Holds-pure, Holds-raise, active)

    pub some-Holds :
        {m : Exec Session CollaborationPayment}
        → Holds P m P
        → Holds P (m >>= λ p. pure (some p)) (Each P)
    some-Holds k = Holds-bind k (λ p h. Holds-pure (some p) h)

    pub activate_if_present-Holds :
        (c : Collaboration) (o : Option CollaborationPayment)
        → Each P o
        → Holds P (activate_if_present c o) (Each P)
    unfolding activate_if_present
    activate_if_present-Holds c none h = Holds-pure none tt
    activate_if_present-Holds c (some p) h =
        validated c p _
          (Holds-guard _ _ _ λ _. some-Holds (activate_held_payment_if_eligible-Holds c p h))

    pub activate_for_collaboration_acceptance-Holds :
        (id : ℕ) → Holds P (activate_for_collaboration_acceptance id) (Each P)
    unfolding activate_for_collaboration_acceptance
    activate_for_collaboration_acceptance-Holds id =
        Holds-bind (get_locked_relationship_if_present-Holds id)
          λ found h. activate_if_present-Holds found.0 found.1 h
