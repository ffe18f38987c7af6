-- ===== src/Exec/Ends.antt =====
-- What holds after a return, for methods whose raise is rolled back: one rule for each way to go on.
use connextion_z_luna.Prelude.{Bool, true, false, ◌≡◌, refl, if◌then◌else◌}
use connextion_z_luna.Errors.{Error, Result, ok, err, raise_if}
use connextion_z_luna.Exec.{Exec, gets, lift, ◌>>=◌}

module _ {S A : Type 0} where
  -- After a return the value and the state have `Post`; a raise is free.
  abbrev pub Returned : (A → S → Type 0) → Result A × S → Type 0
  Returned Post (err e, s) = Unit
  Returned Post (ok a, s) = Post a s

  pub record Ends (Post : A → S → Type 0) (r : Result A × S) : Type 0 where
    pub at : Returned Post r

module _ {S A : Type 0} {Post : A → S → Type 0} where
  pub returns : (a : A) (s : S) → Post a s → Ends Post (ok a, s)
  returns a s h = record { at = h }

  pub raises : (e : Error) (s : S) → Ends Post (err e, s)
  raises e s = record { at = tt }

  pub Ends-case :
      (b : Bool) (x y : Result A × S)
      → (b ≡ true → Ends Post x)
      → (b ≡ false → Ends Post y)
      → Ends Post (if b then x else y)
  Ends-case true x y h k = h refl
  Ends-case false x y h k = k refl

  pub Ends-if :
      (b : Bool) (m n : Exec S A) (s : S)
      → (b ≡ true → Ends Post (m s))
      → (b ≡ false → Ends Post (n s))
      → Ends Post ((if b then m else n) s)
  Ends-if true m n s h k = h refl
  Ends-if false m n s h k = k refl

  -- A validation that comes last.
  pub Ends-last : (r : Result A) (s : S) → ((a : A) → r ≡ ok a → Post a s) → Ends Post (lift r s)
  Ends-last (err e) s h = raises e s
  Ends-last (ok a) s h = returns a s (h a refl)

  pub Ends-guard :
      (b : Bool) (e : Error) (f : Unit {0} → Exec S A) (s : S)
      → (b ≡ false → Ends Post (f tt s))
      → Ends Post ((lift (raise_if b e) >>= f) s)
  unfolding ◌>>=◌
  Ends-guard true e f s h = raises e s
  Ends-guard false e f s h = h refl

  pub Ends-mono :
      (Q : A → S → Type 0) (r : Result A × S)
      → ((a : A) (t : S) → Post a t → Q a t)
      → Ends Post r
      → Ends Q r
  Ends-mono Q (err e, s) h p = record { at = tt }
  Ends-mono Q (ok a, s) h p = record { at = h a s p.at }

module _ {S A B : Type 0} {Post : B → S → Type 0} where
  pub Ends-bind :
      (m : Exec S A) (f : A → Exec S B) (s : S)
      → Ends (λ a t. Ends Post (f a t)) (m s)
      → Ends Post ((m >>= f) s)
  unfolding ◌>>=◌
  Ends-bind m f s h = after (m s) h
    where
      after :
          (r : Result A × S)
          → Ends (λ a t. Ends Post (f a t)) r
          → Ends Post (((λ (t : S). r) >>= f) s)
      after (err e, t) h = raises e t
      after (ok a, t) h = h.at

  -- A validation: the rest may use that it passed.
  pub Ends-lift :
      (r : Result A) (f : A → Exec S B) (s : S)
      → ((a : A) → r ≡ ok a → Ends Post (f a s))
      → Ends Post ((lift r >>= f) s)
  unfolding ◌>>=◌
  Ends-lift (err e) f s h = raises e s
  Ends-lift (ok a) f s h = h a refl

  pub Ends-gets :
      (g : S → A) (f : A → Exec S B) (s : S) → Ends Post (f (g s) s) → Ends Post ((gets g >>= f) s)
  unfolding ◌>>=◌
  Ends-gets g f s h = h
