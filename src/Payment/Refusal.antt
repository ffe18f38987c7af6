-- ===== src/Payment/Refusal.antt =====
-- Calls that are refused: they raise, and leave the session as it was.
pub mod Party
pub mod Provider
pub mod Production
use connextion_z_luna.Prelude.{
  ℕ, Bool, true, false, ◌≡◌, refl, sym, subst, ap, ◌∙◌, ◌⊎◌, inl, inr, Option, none, some,
  if◌then◌else◌,
}
use connextion_z_luna.Errors.{Error, Result, ok, err, raise_if}
use connextion_z_luna.Exec.{Exec, pure, raise, lift, gets, continue, ◌>>=◌}
use connextion_z_luna.Payment.Model.{Collaboration, CollaborationPayment}
use connextion_z_luna.Payment.Session.{Session, get_for_collaboration}
use connextion_z_luna.Payment.Service.{
  require_some, validate_relationship, get_locked_relationship_if_present, get_locked_relationship,
}

-- The call raises, and the session is as it was.
pub record Refuses {A : Type 0} (m : Exec Session A) (s : Session) : Type 0 where
  pub error : Error
  pub raised : m s ≡ (err error, s)

-- The session is as it was, after a return and after a raise.
pub data Reads {A : Type 0} (m : Exec Session A) (s : Session) : Type 0 where
  returned : (a : A) → m s ≡ (ok a, s) → Reads m s
  refused : (e : Error) → m s ≡ (err e, s) → Reads m s

module _ {A : Type 0} where
  pub Reads-lift : (r : Result A) (s : Session) → Reads (lift r) s
  Reads-lift (ok a) s = returned a refl
  Reads-lift (err e) s = refused e refl

  pub Reads-gets : (read : Session → A) (s : Session) → Reads (gets read) s
  Reads-gets read s = returned (read s) refl

  pub Refuses-raise : (e : Error) (s : Session) → Refuses {A = A} (raise e) s
  Refuses-raise e s = record { error = e; raised = refl }

  pub Refuses-if :
      (b : Bool) (m n : Exec Session A) (s : Session)
      → (b ≡ true → Refuses m s)
      → (b ≡ false → Refuses n s)
      → Refuses (if b then m else n) s
  Refuses-if true m n s hm hn = hm refl
  Refuses-if false m n s hm hn = hn refl

module _ {A B : Type 0} (s : Session) where
  continue_ok :
      (r : Result A × Session) (a : A) (f : A → Exec Session B)
      → r ≡ (ok a, s)
      → continue r.0 f r.1 ≡ f a s
  continue_ok r a f e = ap (λ x. continue x.0 f x.1) e

  continue_err :
      (r : Result A × Session) (e : Error) (f : A → Exec Session B)
      → r ≡ (err e, s)
      → continue r.0 f r.1 ≡ (err e, s)
  continue_err r e f h = ap (λ x. continue x.0 f x.1) h

  pub Refuses-bind :
      {m : Exec Session A} {f : A → Exec Session B}
      → Reads m s
      → ((a : A) → m s ≡ (ok a, s) → Refuses (f a) s)
      → Refuses (m >>= f) s
  unfolding ◌>>=◌
  Refuses-bind {m} {f} (returned a r) k =
      let refusal = k a r in
      record { error = refusal.error; raised = continue_ok (m s) a f r ∙ refusal.raised }
  Refuses-bind {m} {f} (refused e r) k = record { error = e; raised = continue_err (m s) e f r }

  pub Reads-bind :
      {m : Exec Session A} {f : A → Exec Session B}
      → Reads m s
      → ((a : A) → Reads (f a) s)
      → Reads (m >>= f) s
  unfolding ◌>>=◌
  Reads-bind {m} {f} (returned a r) k = elim (k a) [
    | returned b h ↦ returned b (continue_ok (m s) a f r ∙ h)
    | refused e h ↦ refused e (continue_ok (m s) a f r ∙ h)
  ]
  Reads-bind {m} {f} (refused e r) k = refused e (continue_err (m s) e f r)

  -- What a validation lets through.
  pub Refuses-lift :
      (r : Result A) (f : A → Exec Session B)
      → ((a : A) → r ≡ ok a → Refuses (f a) s)
      → Refuses (lift r >>= f) s
  unfolding ◌>>=◌
  Refuses-lift (ok a) f k =
      let refusal = k a refl in record { error = refusal.error; raised = refusal.raised }
  Refuses-lift (err e) f k = record { error = e; raised = refl }

module _ (s : Session) where
  pub validate_relationship-Reads :
      (c : Collaboration) (p : CollaborationPayment) → Reads (validate_relationship c p) s
  unfolding validate_relationship
  validate_relationship-Reads c p = Reads-bind s (Reads-gets _ s) λ ids. Reads-lift _ s

  pub get_locked_relationship_if_present-Reads :
      (id : ℕ) → Reads (get_locked_relationship_if_present id) s
  unfolding get_locked_relationship_if_present
  get_locked_relationship_if_present-Reads id = Reads-bind s (Reads-gets _ s) λ found.
      Reads-bind s (Reads-lift _ s) λ c. Reads-bind s (Reads-gets _ s) λ p. returned (c, p) refl

  pub get_locked_relationship-Reads : (id : ℕ) → Reads (get_locked_relationship id) s
  unfolding get_locked_relationship
  get_locked_relationship-Reads id =
      Reads-bind s (get_locked_relationship_if_present-Reads id)
        λ found. Reads-bind s (Reads-lift _ s) λ p. returned (found.0, p) refl
