-- ===== src/Provider/Fake/Idempotent.antt =====
-- The methods of the fake provider, called again with a key.
use connextion_z_luna.Prelude.{
  ℤ, String, Bool, false, ◌≡◌, ◌&&◌, str_eq, eq_ℤ, refl, ap, ◌∙◌, arith,
}
use connextion_z_luna.Errors.{Error, ok, err, raise_if}
use connextion_z_luna.Exec.{Exec, lift, gets, ◌>>=◌, ◌>>◌}
use connextion_z_luna.Exec.Returns.{passed, pass}
use connextion_z_luna.Provider.{ProviderResult}
use connextion_z_luna.Provider.Fake.{
  FakeProvider, get_payment, set_payment, initialize_operation, authorize_operation,
  cancel_operation, refund_operation, initialize_payment, authorize_hold, cancel_hold,
  refund_payment, reused_key,
}
use connextion_z_luna.Provider.Fake.Repeat.{flags, execute-again, execute-stores, execute-conflict}

module _ (reference : String) (amount : ℤ) (currency key : String) (s : FakeProvider)
    (a : ProviderResult) where
  initialize_operation-flags :
      (initialize_operation reference amount currency key s).0 ≡ ok a
      → flags (initialize_operation reference amount currency key s).1 ≡ flags s
  unfolding initialize_operation set_payment ◌>>=◌
  initialize_operation-flags h = refl

  authorize_operation-flags :
      (authorize_operation reference amount currency key s).0 ≡ ok a
      → flags (authorize_operation reference amount currency key s).1 ≡ flags s
  unfolding authorize_operation get_payment set_payment ◌>>=◌
  authorize_operation-flags h = ground arith

  refund_operation-flags :
      (refund_operation reference amount currency key s).0 ≡ ok a
      → flags (refund_operation reference amount currency key s).1 ≡ flags s
  unfolding refund_operation get_payment set_payment ◌>>=◌
  refund_operation-flags h = ground arith

cancel_operation-flags :
    (reference key : String) (s : FakeProvider) (a : ProviderResult)
    → (cancel_operation reference key s).0 ≡ ok a
    → flags (cancel_operation reference key s).1 ≡ flags s
unfolding cancel_operation get_payment set_payment ◌>>=◌
cancel_operation-flags reference key s a h = ground arith

-- A call of one of the methods that change the provider's state.
pub data FakeCall : Type 0 where
  initializing authorizing refunding : String → ℤ → String → String → FakeCall
  cancelling : String → String → FakeCall

abbrev pub call : FakeCall → Exec FakeProvider ProviderResult
call (initializing reference amount currency key) = initialize_payment reference amount currency key
call (authorizing reference amount currency key) = authorize_hold reference amount currency key
call (refunding reference amount currency key) = refund_payment reference amount currency key
call (cancelling reference key) = cancel_hold reference key

-- A method behind a flag that makes it fail.
flagged-again :
    (flag : FakeProvider → Bool) (e : Error) (body : Exec FakeProvider ProviderResult)
    (s : FakeProvider) (r : ProviderResult) (s' : FakeProvider)
    → ((flags s' ≡ flags s) → flag s' ≡ flag s)
    → (body s ≡ (ok r, s') → (body s' ≡ (ok r, s')) × (flags s' ≡ flags s))
    → (gets flag >>= λ fails. lift (raise_if fails e) >> body) s ≡ (ok r, s')
    → (gets flag >>= λ fails. lift (raise_if fails e) >> body) s' ≡ (ok r, s')
unfolding ◌>>=◌
flagged-again flag e body s r s' same again h =
    let (calm, h1) = passed (flag s) e (λ _. body) s s' r h in
    let (repeated, kept) = again h1 in pass (flag s') e (λ _. body) s' (same kept ∙ calm) ∙ repeated

-- The fake provider is idempotent: when an initialization, an authorization, a cancellation or a
-- refund has returned an answer, the same call with the same key returns the same answer and leaves
-- the state of the provider as it is.
pub call-again :
    (c : FakeCall) (s : FakeProvider) (r : ProviderResult) (s' : FakeProvider)
    → call c s ≡ (ok r, s')
    → call c s' ≡ (ok r, s')
unfolding initialize_payment authorize_hold cancel_hold refund_payment
call-again (initializing reference amount currency key) s r s' =
    flagged-again (λ t. t.payment_fails) _ _ s r s' (ap (λ f. f.2))
      (execute-again _ key _ _ s r s' (initialize_operation-flags reference amount currency key))
call-again (authorizing reference amount currency key) s r s' =
    flagged-again (λ t. t.authorization_fails) _ _ s r s' (ap (λ f. f.1))
      (execute-again _ key _ _ s r s' (authorize_operation-flags reference amount currency key))
call-again (refunding reference amount currency key) s r s' =
    flagged-again (λ t. t.refund_fails) _ _ s r s' (ap (λ f. f.3))
      (execute-again _ key _ _ s r s' (refund_operation-flags reference amount currency key))
call-again (cancelling reference key) s r s' =
    λ h. (execute-again _ key _ _ s r s' (cancel_operation-flags reference key) h).0

-- A key is bound to its data: when an authorization has returned, an authorization with the same key
-- for another reference, amount or currency raises `ProviderInvalidState` and changes nothing.
pub authorize_hold-conflict :
    (reference other : String) (amount other_amount : ℤ) (currency other_currency key : String)
    (s : FakeProvider) (r : ProviderResult) (s' : FakeProvider)
    → authorize_hold reference amount currency key s ≡ (ok r, s')
    → (str_eq reference other && eq_ℤ amount other_amount && str_eq currency other_currency) ≡ false
    → authorize_hold other other_amount other_currency key s' ≡ (err reused_key, s')
unfolding authorize_hold ◌>>=◌
authorize_hold-conflict reference other amount other_amount currency other_currency key s r s' h
      differ =
    let (calm, h1) = passed s.authorization_fails _ (λ _. _) s s' r h in
    let (valid, free, stored, kept) =
      execute-stores _ key _ _ s r s' (authorize_operation-flags reference amount currency key)
        h1 in
    pass s'.authorization_fails _ (λ _. _) s' (ap (λ f. f.1) kept ∙ calm)
    ∙ execute-conflict _ key _ _ _ r s' valid free stored differ
