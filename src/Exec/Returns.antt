-- ===== src/Exec/Returns.antt =====
-- What a return says of the guards before it.
use connextion_z_luna.Prelude.{Bool, true, false, ◌≡◌, refl, ap}
use connextion_z_luna.Errors.{Error, Result, ok, err, raise_if}
use connextion_z_luna.Exec.{Exec, lift, ◌>>=◌}

pub ok_injective : {A : Type 0} {a b : A} → ok a ≡ ok b → a ≡ b
ok_injective e = cc

pub err_is_not_ok : {A : Type 0} {e : Error} {a : A} → ◌≡◌ {A = Result A} (err e) (ok a) → ⊥
err_is_not_ok h = cc

pub raise_if-ok : (b : Bool) (e : Error) (u : Unit {0}) → raise_if b e ≡ ok u → b ≡ false
raise_if-ok true e u h = cc
raise_if-ok false e u h = refl

module _ {S : Type 0} where
  -- A raise is not a return.
  pub raise_is_not_return :
      {A : Type 0} {e : Error} {a : A} {s s' : S} → ◌≡◌ {A = Result A × S} (err e, s) (ok a, s') → ⊥
  raise_is_not_return h = err_is_not_ok (ap (λ x. x.0) h)

  -- A call that returns has passed its first guard.
  pub passed :
      {A : Type 0} (b : Bool) (e : Error) (f : Unit {0} → Exec S A) (s s' : S) (a : A)
      → (lift (raise_if b e) >>= f) s ≡ (ok a, s')
      → (b ≡ false) × (f tt s ≡ (ok a, s'))
  unfolding ◌>>=◌
  passed true e f s s' a h = absurd (raise_is_not_return h)
  passed false e f s s' a h = (refl, h)

  pub last_passed :
      (b : Bool) (e : Error) (s s' : S) (u : Unit {0})
      → lift (raise_if b e) s ≡ (ok u, s')
      → b ≡ false
  last_passed true e s s' u h = absurd (raise_is_not_return h)
  last_passed false e s s' u h = refl

  pub pass :
      {A : Type 0} (b : Bool) (e : Error) (f : Unit {0} → Exec S A) (s : S)
      → b ≡ false
      → (lift (raise_if b e) >>= f) s ≡ f tt s
  unfolding ◌>>=◌
  pass true e f s h = absurd cc
  pass false e f s h = refl
