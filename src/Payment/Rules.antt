-- ===== src/Payment/Rules.antt =====
-- Rules for the operations: which rows a session holds after a return and after a raise.
use connextion_z_luna.Prelude.{
  ℕ, Bool, true, false, ◌≡◌, refl, subst, ◌==◌, Option, some, List, [], ◌∷◌, inl, inr, All, find,
  Bool-cases, arith, if◌then◌else◌,
}
use connextion_z_luna.Errors.{Error, Result, ok, err, raise_if}
use connextion_z_luna.Exec.{Exec, pure, raise, lift, gets, ◌>>=◌, continue}
use connextion_z_luna.Payment.Model.{CollaborationPayment}
use connextion_z_luna.Payment.Session.{Session, replace}

module _ {A : Type 0} where
  -- How a call has ended: with a value and a state, or with a state after a raise.
  abbrev Ends : (A → Session → Type 0) → (Session → Type 0) → Result A × Session → Type 0
  Ends Post Exc (ok a, s) = Post a s
  Ends Post Exc (err e, s) = Exc s

module _ (P : CollaborationPayment → Type 0) where
  -- Every row that the session sees, and every committed row, has `P`.
  pub record IsClean (s : Session) : Type 0 where
    pub rows : All P s.rows
    pub committed : All P s.committed

  -- After a raise the caller rolls back, so only the committed rows count.
  pub record IsRecoverable (s : Session) : Type 0 where
    pub committed : All P s.committed

  -- The rows are clean but for those of payment `p`, which is being written.
  pub record IsWorking (id : ℕ) (s : Session) : Type 0 where
    pub others : All (λ x. (x.id == id) ≡ false → P x) s.rows
    pub committed : All P s.committed

  abbrev pub Yields : {A : Type 0} → (A → Type 0) → Result A × Session → Type 0
  Yields Q = Ends (λ a s. Q a × IsClean s) IsRecoverable

  -- From a clean session, `m` returns a value with `Q` in a clean session, or raises.
  pub record Holds {A : Type 0} (m : Exec Session A) (Q : A → Type 0) : Type 0 where
    pub at : (s : Session) → IsClean s → Yields Q (m s)

  -- The same from a session in which one row is being written.
  pub record Finishes {A : Type 0} (id : ℕ) (m : Exec Session A) (Q : A → Type 0) : Type 0 where
    pub at : (s : Session) → IsWorking id s → Yields Q (m s)

some_eq : {x p : CollaborationPayment} → some x ≡ some p → x ≡ p
some_eq e = cc

pick :
    (P : CollaborationPayment → Type 0) (b : Bool) {x p : CollaborationPayment}
    {rest : Option CollaborationPayment}
    → P x
    → (rest ≡ some p → P p)
    → (if b then some x else rest) ≡ some p
    → P p
pick P true good later e = subst P (some_eq e) good
pick P false good later e = later e

-- What is found among rows with `P` has `P`.
pub find-All :
    (P : CollaborationPayment → Type 0) (test : CollaborationPayment → Bool)
    (rows : List CollaborationPayment) (p : CollaborationPayment)
    → All P rows
    → find test rows ≡ some p
    → P p
find-All P test [] p h e = cc
find-All P test (x ∷ rows) p h e = pick P (test x) h.0 (find-All P test rows p h.1) e

module _ (P : CollaborationPayment → Type 0) where
  abbrev Spares : ℕ → CollaborationPayment → Type 0
  Spares id x = (x.id == id) ≡ false → P x

  pub All-Spares : (id : ℕ) (rows : List CollaborationPayment) → All P rows → All (Spares id) rows
  All-Spares id [] h = tt
  All-Spares id (x ∷ rows) h = (λ _. h.0, All-Spares id rows h.1)

  -- Writing the row mends the session, once the row has `P`.
  pub replace-All :
      (p : CollaborationPayment) (rows : List CollaborationPayment)
      → P p
      → All (Spares p.id) rows
      → All P (replace p rows)
  unfolding replace
  replace-All p [] good h = tt
  replace-All p (x ∷ rows) good h = elim (Bool-cases (x.id == p.id)) [
    | inl same ↦ rw same (good, replace-All p rows good h.1)
    | inr other ↦ rw other (h.0 other, replace-All p rows good h.1)
  ]

  -- Writing it does not touch the other rows.
  pub replace-Spares :
      (p : CollaborationPayment) (rows : List CollaborationPayment)
      → All (Spares p.id) rows
      → All (Spares p.id) (replace p rows)
  unfolding replace
  replace-Spares p [] h = tt
  replace-Spares p (x ∷ rows) h = elim (Bool-cases (x.id == p.id)) [
    | inl same ↦ rw same (λ e. absurd (ground arith), replace-Spares p rows h.1)
    | inr other ↦ rw other (h.0, replace-Spares p rows h.1)
  ]

module _ {P : CollaborationPayment → Type 0} where
  IsClean-IsRecoverable : {s : Session} → IsClean P s → IsRecoverable P s
  IsClean-IsRecoverable h = record { committed = h.committed }

  pub IsClean-IsWorking : (id : ℕ) {s : Session} → IsClean P s → IsWorking P id s
  IsClean-IsWorking id {s} h = record {
    others = All-Spares P id s.rows h.rows;
    committed = h.committed;
  }

module _ {P : CollaborationPayment → Type 0} {A : Type 0} {Q : A → Type 0} where
  pub Holds-pure : (a : A) → Q a → Holds P (pure a) Q
  Holds-pure a q = record { at = λ s h. (q, h) }

  pub Holds-raise : (e : Error) → Holds P (raise e) Q
  Holds-raise e = record { at = λ s h. IsClean-IsRecoverable h }

  pub Holds-if :
      (b : Bool) (m n : Exec Session A)
      → (b ≡ true → Holds P m Q)
      → (b ≡ false → Holds P n Q)
      → Holds P (if b then m else n) Q
  Holds-if true m n hm hn = hm refl
  Holds-if false m n hm hn = hn refl

module _ {P : CollaborationPayment → Type 0} {A : Type 0} {Q : A → Type 0} where
  pub Holds-check : (r : Result A) → ((a : A) → r ≡ ok a → Q a) → Holds P (lift r) Q
  Holds-check (ok a) q = record { at = λ s h. (q a refl, h) }
  Holds-check (err e) q = record { at = λ s h. IsClean-IsRecoverable h }

module _ {P : CollaborationPayment → Type 0} {A B : Type 0} where
  pub Yields-continue :
      (Q : A → Type 0) (R : B → Type 0) (r : Result A) (s : Session) (f : A → Exec Session B)
      → Yields P Q (r, s)
      → ((a : A) → Q a → Holds P (f a) R)
      → Yields P R (continue r f s)
  Yields-continue Q R (ok a) s f h k = (k a h.0).at s h.1
  Yields-continue Q R (err e) s f h k = h

  pub Holds-bind :
      {Q : A → Type 0} {R : B → Type 0} {m : Exec Session A} {f : A → Exec Session B}
      → Holds P m Q
      → ((a : A) → Q a → Holds P (f a) R)
      → Holds P (m >>= f) R
  unfolding ◌>>=◌
  Holds-bind {Q} {R} {m} {f} t k = record {
    at = λ s h. let (r, s') = m s in Yields-continue Q R r s' f (t.at s h) k;
  }

  -- What a validation lets through may be used by what follows it.
  pub Holds-lift :
      {R : B → Type 0} (r : Result A) {f : A → Exec Session B}
      → ((a : A) → r ≡ ok a → Holds P (f a) R)
      → Holds P (lift r >>= f) R
  unfolding ◌>>=◌
  Holds-lift (ok a) k = k a refl
  Holds-lift (err e) k = record { at = λ s h. IsClean-IsRecoverable h }

  pub Holds-skip :
      {R : B → Type 0} (r : Result A) (f : A → Exec Session B)
      → ((a : A) → Holds P (f a) R)
      → Holds P (lift r >>= f) R
  Holds-skip r f k = Holds-lift r (λ a _. k a)

  -- A read may be used with what it says of a clean session.
  pub Holds-gets :
      (Q : A → Type 0) {R : B → Type 0} {read : Session → A} {f : A → Exec Session B}
      → ((s : Session) → IsClean P s → Q (read s))
      → ((a : A) → Q a → Holds P (f a) R)
      → Holds P (gets read >>= f) R
  unfolding ◌>>=◌
  Holds-gets Q {read = read} q k = record { at = λ s h. (k (read s) (q s h)).at s h }

  pub Holds-read :
      {R : B → Type 0} (read : Session → A) (f : A → Exec Session B)
      → ((a : A) → Holds P (f a) R)
      → Holds P (gets read >>= f) R
  Holds-read read f k = Holds-gets (λ _. Unit {0}) (λ s h. tt) (λ a _. k a)

raise_if-false : (b : Bool) (e : Error) (u : Unit {0}) → raise_if b e ≡ ok u → b ≡ false
raise_if-false true e u h = cc
raise_if-false false e u h = refl

module _ {P : CollaborationPayment → Type 0} {B : Type 0} where
  -- A guard: the rest runs with the test false.
  pub Holds-guard :
      {R : B → Type 0} (b : Bool) (e : Error) (f : Unit {0} → Exec Session B)
      → (b ≡ false → Holds P (f tt) R)
      → Holds P (lift (raise_if b e) >>= f) R
  Holds-guard b e f k = Holds-lift (raise_if b e) (λ u h. k (raise_if-false b e u h))
