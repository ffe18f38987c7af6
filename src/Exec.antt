-- ===== src/Exec.antt =====
-- Methods that read and write the database session and may raise. What was written before a raise
-- stays written, so the state comes back beside the error too.
pub mod Returns
pub mod Ends
use connextion_z_luna.Prelude.{Bool, true, false}
use connextion_z_luna.Errors.{Error, Result, ok, err}

abbrev pub Exec {ℓ} : Type ℓ → Type ℓ → Type ℓ
Exec S A = S → Result A × S

module _ {ℓ} {S A : Type ℓ} where
  abbrev pub gets : (S → A) → Exec S A
  gets read session = (ok (read session), session)

  abbrev pub pure : A → Exec S A
  pure value session = (ok value, session)

  -- A validation that neither reads nor writes the session.
  abbrev pub lift : Result A → Exec S A
  lift checked session = (checked, session)

  abbrev pub raise : Error → Exec S A
  raise error session = (err error, session)

  -- `try: m except e: handler(e)`.
  abbrev pub on_error : Result A → (Error → Exec S A) → Exec S A
  on_error (ok value) handler session = (ok value, session)
  on_error (err error) handler session = handler error session

  unfoldable pub attempt : Exec S A → (Error → Exec S A) → Exec S A
  attempt m handler session = let (r, after) = m session in on_error r handler after

module _ {ℓ} {S A B : Type ℓ} where
  abbrev pub continue : Result A → (A → Exec S B) → Exec S B
  continue (err error) next session = (err error, session)
  continue (ok value) next session = next value session

  infixl 10 ◌>>=◌
  unfoldable pub ◌>>=◌ : Exec S A → (A → Exec S B) → Exec S B
  ◌>>=◌ m next session = let (r, after) = m session in continue r next after

infixl 10 ◌>>◌
abbrev pub ◌>>◌ : {S B : Type 0} → Exec S (Unit {0}) → Exec S B → Exec S B
m >> k = m >>= λ _. k

abbrev pub modify : {S : Type 0} → (S → S) → Exec S (Unit {0})
modify f s = (ok tt, f s)
