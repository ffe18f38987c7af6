-- ===== src/Payment/Refusal/Provider.antt =====
-- `authorize_hold_with_provider` and `refund_with_provider` against the provider's answers.
use connextion_z_luna.Prelude.{
  ℕ, String, Bool, true, false, not, ◌≡◌, sym, subst, ◌&&◌, Option, some, List, [], ◌∷◌, str_eq,
  eq_ℤ, opt_text_eq, is_some, is_none, arith,
}
use connextion_z_luna.Errors.{ok}
use connextion_z_luna.Exec.{◌>>=◌}
use connextion_z_luna.Exec.Returns.{raise_if-ok, passed, last_passed}
use connextion_z_luna.Provider.{ProviderStatus, ProviderResult, PaymentProvider, authorized}
use connextion_z_luna.Payment.Model.{
  Collaboration, CollaborationPayment, state_in, pending, refunded,
}
use connextion_z_luna.Payment.Session.{Session, get_for_collaboration}
use connextion_z_luna.Payment.Service.{get_locked_relationship_if_present, get_locked_relationship}
use connextion_z_luna.Payment.ProviderCalls.{
  provider_status_in, validate_provider_result, repeat_provider_hold, first_provider_hold,
  authorize_hold_with_provider, refund_unrefunded, refund_with_provider,
}
use connextion_z_luna.Payment.Audit.{require_refund_audit}
use connextion_z_luna.Payment.Resolution.{keep}
use connextion_z_luna.Payment.Refusal.{
  Refuses, Reads, Reads-lift, Reads-bind, Refuses-if, Refuses-bind, Refuses-lift,
  validate_relationship-Reads, get_locked_relationship-Reads,
}

-- The answer has the status, this payment's amount and currency and this key, and reports no failure.
abbrev pub is_answer_for : ProviderStatus → ProviderResult → CollaborationPayment → String → Bool
is_answer_for status r p key =
    provider_status_in r.status (status ∷ [])
    && eq_ℤ r.amount_minor_units p.amount_minor_units
    && str_eq r.currency p.currency
    && opt_text_eq r.idempotency_key (some key)
    && is_none r.failure_code
    && is_none r.failure_message

-- The answer authorizes the payment's hold, by an operation.
abbrev pub is_authorization_of : ProviderResult → CollaborationPayment → String → Bool
is_authorization_of r p key = is_answer_for authorized r p key && is_some r.operation_id

-- No answer to the request for this payment's hold is such an authorization.
abbrev pub IsUnauthorized : PaymentProvider → CollaborationPayment → String → Type 0
IsUnauthorized provider p key =
    (reference : String) (r : ProviderResult)
    → provider.authorize_hold reference p.amount_minor_units p.currency key ≡ ok r
    → is_authorization_of r p key ≡ false

-- What `_validate_provider_result` accepts for one expected status.
accepted_answer :
    (provider : PaymentProvider) (status : ProviderStatus) (r : ProviderResult)
    (p : CollaborationPayment) (key : String) (s s' : Session) (u : Unit {0})
    → validate_provider_result provider r (status ∷ []) p (some key) s ≡ (ok u, s')
    → is_answer_for status r p key ≡ true
unfolding validate_provider_result
accepted_answer provider status r p key s s' u h =
    let (a, h1) = passed _ _ _ s s' u h in
    let (b, h2) = passed _ _ _ s s' u h1 in
    let (c, h3) = passed _ _ _ s s' u h2 in
    let (d, h4) = passed _ _ _ s s' u h3 in
    let (e, h5) = passed _ _ _ s s' u h4 in let f = last_passed _ _ s s' u h5 in ground arith

validate_provider_result-Reads :
    (provider : PaymentProvider) (r : ProviderResult) (expected : List ProviderStatus)
    (p : CollaborationPayment) (key : Option String) (s : Session)
    → Reads (validate_provider_result provider r expected p key) s
unfolding validate_provider_result
validate_provider_result-Reads provider r expected p key s = Reads-bind s (Reads-lift _ s) λ _.
    Reads-bind s (Reads-lift _ s) λ _.
      Reads-bind s (Reads-lift _ s)
        λ _. Reads-bind s (Reads-lift _ s) λ _. Reads-bind s (Reads-lift _ s) λ _. Reads-lift _ s

-- No answer to the request for this payment's refund gives its amount back.
abbrev pub IsUnrefunded : PaymentProvider → CollaborationPayment → String → Type 0
IsUnrefunded provider p key =
    (reference : String) (r : ProviderResult)
    → provider.refund_payment reference p.amount_minor_units p.currency key ≡ ok r
    → is_answer_for ProviderStatus.refunded r p key ≡ false

module _ (provider : PaymentProvider) (p : CollaborationPayment) (id payer : ℕ) (key : String)
    (s : Session) where
  first_provider_hold-Refuses :
      IsUnauthorized provider p key → Refuses (first_provider_hold provider p id payer key) s
  unfolding first_provider_hold
  first_provider_hold-Refuses unauthorized = Refuses-lift s _ _ λ reference _.
      Refuses-lift s _ _ λ _ _. Refuses-lift s _ _ λ r answer.
        Refuses-bind s (validate_provider_result-Reads provider r (authorized ∷ []) p (some key) s)
          λ u valid. Refuses-lift s _ _ λ v operation.
            let present = raise_if-ok _ _ v operation in
            let matching = accepted_answer provider authorized r p key s s u valid in
            let mismatch = unauthorized reference r answer in absurd (ground arith)

  refund_unrefunded-Refuses :
      IsUnrefunded provider p key → Refuses (refund_unrefunded provider p id key) s
  unfolding refund_unrefunded
  refund_unrefunded-Refuses unrefunded = Refuses-lift s _ _ λ _ _. Refuses-lift s _ _ λ reference _.
      Refuses-lift s _ _ λ _ _. Refuses-lift s _ _ λ r answer.
        Refuses-bind s
          (validate_provider_result-Reads provider r (ProviderStatus.refunded ∷ []) p (some key) s)
          λ u valid.
            let matching = accepted_answer provider ProviderStatus.refunded r p key s s u valid in
            let mismatch = unrefunded reference r answer in absurd (ground arith)

locked_payment :
    (id : ℕ) (s : Session) (found : Collaboration × CollaborationPayment) (p : CollaborationPayment)
    → get_locked_relationship id s ≡ (ok found, s)
    → get_for_collaboration id s ≡ some p
    → found.1 ≡ p
unfolding get_locked_relationship get_locked_relationship_if_present ◌>>=◌
locked_payment id s found p h e = ground arith

-- While a payment is `PENDING` and the provider's answers do not authorize exactly its amount and
-- currency, for the caller's key, with an operation and without failure details, asking for a hold
-- with the provider is refused and changes nothing.
pub authorize_hold_with_provider-Refuses :
    (provider : PaymentProvider) (id payer : ℕ) (key : String) (s : Session)
    (p : CollaborationPayment)
    → get_for_collaboration id s ≡ some p
    → state_in p.state (pending ∷ []) ≡ true
    → IsUnauthorized provider p key
    → Refuses (authorize_hold_with_provider provider id payer key) s
unfolding authorize_hold_with_provider
authorize_hold_with_provider-Refuses provider id payer key s p found waiting unauthorized =
    Refuses-lift s _ _ λ _ _. Refuses-bind s (get_locked_relationship-Reads s id) λ both locked.
      let same = locked_payment id s both p locked found in
      Refuses-bind s (validate_relationship-Reads s both.0 both.1) λ _ _. Refuses-lift s _ _ λ _ _.
        Refuses-lift s _ _ λ _ _.
          let never = repeated_never both.0 both.1 same in
          let first =
            subst (λ x. Refuses (first_provider_hold provider x id payer key) s) (sym same)
              (first_provider_hold-Refuses provider p id payer key s unauthorized) in
          search (Refuses-if, never, first)
  where
    repeated_never :
        (c : Collaboration) (q : CollaborationPayment)
        → q ≡ p
        → not (state_in q.state (pending ∷ [])) ≡ true
        → Refuses (repeat_provider_hold provider c q key) s
    repeated_never c q same left =
        let still = subst (λ x. state_in x.state (pending ∷ []) ≡ true) (sym same) waiting in
        absurd (ground arith)

-- While a payment is not `REFUNDED` and the provider's answers do not report a refund of exactly its
-- amount and currency, for the caller's key and without failure details, asking for a refund with
-- the provider is refused and changes nothing.
pub refund_with_provider-Refuses :
    (provider : PaymentProvider) (id : ℕ) (key : String) (s : Session) (p : CollaborationPayment)
    → get_for_collaboration id s ≡ some p
    → state_in p.state (refunded ∷ []) ≡ false
    → IsUnrefunded provider p key
    → Refuses (refund_with_provider provider id key) s
unfolding refund_with_provider
refund_with_provider-Refuses provider id key s p found unpaid unrefunded = Refuses-lift s _ _ λ _ _.
    Refuses-bind s (get_locked_relationship-Reads s id) λ both locked.
      let same = locked_payment id s both p locked found in
      Refuses-bind s (validate_relationship-Reads s both.0 both.1) λ _ _.
        let never = kept_never both.1 same in
        let first =
          subst (λ x. Refuses (refund_unrefunded provider x id key) s) (sym same)
            (refund_unrefunded-Refuses provider p id 0 key s unrefunded) in
        search (Refuses-if, never, first)
  where
    kept_never :
        (q : CollaborationPayment)
        → q ≡ p
        → state_in q.state (refunded ∷ []) ≡ true
        → Refuses (keep (require_refund_audit q) q) s
    kept_never q same done =
        let not_yet = subst (λ x. state_in x.state (refunded ∷ []) ≡ false) (sym same) unpaid in
        absurd (ground arith)
