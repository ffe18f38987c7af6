-- ===== src/Paid/Rules.antt =====
-- Rules for the parts that only the paid services use, and facts on what a query finds.
use connextion_z_luna.Prelude.{
  ℕ, Bool, true, false, not, ◌≡◌, refl, subst, ◌==◌, ◌&&◌, ◌||◌, Option, none, some, List, [], ◌∷◌,
  find, is_some, if◌then◌else◌, Bool-cases, inl, inr, arith,
}
use connextion_z_luna.Errors.{Error, Result, ok, err, raise_if}
use connextion_z_luna.Errors
use connextion_z_luna.Exec.{Exec, ◌>>=◌}
use connextion_z_luna.Exec.Returns.{err_is_not_ok}
use connextion_z_luna.Exec.Ends.{Ends, returns, raises}
use connextion_z_luna.Paid.Database.{Database}
use connextion_z_luna.Paid.Writes.{
  begin_nested, required, restore, require_postgresql, find_selection, get_selection,
}
use connextion_z_luna.Paid.Model.{PaidDelivery}
use connextion_z_luna.Paid.Delivery.{reading}

module _ {A B : Type 0} {Post : B → Database → Type 0} where
  pub Ends-required :
      (e : Error) (found : Option A) (f : A → Exec Database B) (s : Database)
      → ((a : A) → found ≡ some a → Ends Post (f a s))
      → Ends Post ((required e found >>= f) s)
  unfolding ◌>>=◌
  Ends-required e none f s h = raises e s
  Ends-required e (some a) f s h = h a refl

  pub Ends-reading :
      (read : Database → Result A) (f : A → Exec Database B) (s : Database)
      → ((a : A) → read s ≡ ok a → Ends Post (f a s))
      → Ends Post ((reading read >>= f) s)
  unfolding ◌>>=◌
  Ends-reading read f s h = either (read s) h
    where
      either :
          (r : Result A)
          → ((a : A) → r ≡ ok a → Ends Post (f a s))
          → Ends Post (((λ (t : Database). (r, t)) >>= f) s)
      either (err e) h = raises e s
      either (ok a) h = h a refl

module _ {A : Type 0} {Post : A → Database → Type 0} where
  pub Ends-found :
      (e : Error) (found : Option A) (s : Database)
      → ((a : A) → found ≡ some a → Post a s)
      → Ends Post (required e found s)
  Ends-found e none s h = raises e s
  Ends-found e (some a) s h = returns a s (h a refl)

  pub Ends-nested :
      (m : Exec Database A) (s : Database) → Ends Post (m s) → Ends Post (begin_nested m s)
  unfolding begin_nested
  Ends-nested m s h = either (m s) h
    where
      either : (r : Result A × Database) → Ends Post r → Ends Post (restore s r)
      either (err e, t) h = raises e s
      either (ok a, t) h = h

module _ {B : Type 0} {Post : B → Database → Type 0} where
  pub Ends-postgresql :
      (f : Unit {0} → Exec Database B) (s : Database)
      → (s.is_postgresql ≡ true → Ends Post (f tt s))
      → Ends Post ((require_postgresql >>= f) s)
  unfolding require_postgresql ◌>>=◌
  Ends-postgresql f s h = either s.is_postgresql h
    where
      either :
          (b : Bool)
          → (b ≡ true → Ends Post (f tt s))
          → Ends Post (
              ((λ (t : Database). if b then (ok tt, s) else (err Error.not_implemented_error, s))
                  >>= f)
                s)
      either true h = h refl
      either false h = raises _ s

  pub Ends-selection :
      (delivery_id viewer_id : ℕ) (f : PaidDelivery → Exec Database B) (s : Database)
      → ((d : PaidDelivery)
          → find_selection delivery_id viewer_id s.deliveries ≡ some d
          → Ends Post (f d s))
      → Ends Post ((get_selection delivery_id viewer_id >>= f) s)
  unfolding get_selection ◌>>=◌
  Ends-selection delivery_id viewer_id f s h =
      either (find_selection delivery_id viewer_id s.deliveries) h
    where
      either :
          (found : Option PaidDelivery)
          → ((d : PaidDelivery) → found ≡ some d → Ends Post (f d s))
          → Ends Post (
              ((λ (t : Database).
                    required (Error.value_error "Paid delivery selection not found") found s)
                  >>= f)
                s)
      either none h = raises _ s
      either (some d) h = h d refl

pub some_eq : {A : Type 0} {a b : A} → some a ≡ some b → a ≡ b
some_eq e = cc

pub find-passes :
    {A : Type 0} (test : A → Bool) (rows : List A) (row : A)
    → find test rows ≡ some row
    → test row ≡ true
find-passes test [] row h = absurd cc
find-passes test (x ∷ rows) row h = elim (Bool-cases (test x)) [
  | inl hit ↦ subst (λ r. test r ≡ true) (some_eq (rw hit at h)) hit
  | inr miss ↦ find-passes test rows row (rw miss at h)
]

pub ==_sound : (a b : ℕ) → (a == b) ≡ true → a ≡ b
==_sound a b h = ground arith

pub &&_left : (a b : Bool) → (a && b) ≡ true → a ≡ true
&&_left a b h = ground arith

pub &&_right : (a b : Bool) → (a && b) ≡ true → b ≡ true
&&_right a b h = ground arith

pub not-eq-true : (b : Bool) → not b ≡ true → b ≡ false
not-eq-true true h = cc
not-eq-true false h = refl

pub is_none_of_not_some : {A : Type 0} (o : Option A) → not (is_some o) ≡ true → o ≡ none
is_none_of_not_some none h = refl
is_none_of_not_some (some a) h = cc

pub >>=-ok :
    {A B : Type 0} (m : Result A) (f : A → Result B) (b : B)
    → Errors.◌>>=◌ m f ≡ ok b
    → (a : A) × (m ≡ ok a) × (f a ≡ ok b)
>>=-ok (err e) f b h = absurd (err_is_not_ok h)
>>=-ok (ok a) f b h = (a, refl, h)

pub &&_four :
    (a b c d : Bool) → (a && b && c && d) ≡ true → (a ≡ true) × (b ≡ true) × (c ≡ true) × (d ≡ true)
&&_four a b c d h = ground arith

pub ||_false : (a b : Bool) → (a || b) ≡ false → (a ≡ false) × (b ≡ false)
||_false a b h = ground arith

-- A validation that passes has passed its first guard.
pub guard-ok :
    {B : Type 0} (b : Bool) (e : Error) (m : Result B) (x : B)
    → Errors.◌>>◌ (raise_if b e) m ≡ ok x
    → (b ≡ false) × (m ≡ ok x)
guard-ok true e m x h = absurd (err_is_not_ok h)
guard-ok false e m x h = (refl, h)
