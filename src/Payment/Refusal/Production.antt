-- ===== src/Payment/Refusal/Production.antt =====
-- The provider that the settings of production select.
use connextion_z_luna.Prelude.{ℕ, String, Bool, true, false, ◌≡◌, sym, subst}
use connextion_z_luna.Errors.{Error, ok, raise_if, ◌>>◌}
use connextion_z_luna.Exec.Returns.{ok_injective, err_is_not_ok}
use connextion_z_luna.Provider.{PaymentProvider}
use connextion_z_luna.Provider.Factory.{
  Settings, ProviderChoice, disabled, fake, is_production, disabled_provider, provider_for,
  get_payment_provider,
}
use connextion_z_luna.Payment.Session.{Session}
use connextion_z_luna.Payment.ProviderCalls.{initialize_provider_payment}
use connextion_z_luna.Payment.Refusal.{
  Refuses, Refuses-bind, Refuses-lift, get_locked_relationship-Reads, validate_relationship-Reads,
}

chosen_in_production :
    (digest : String → String) (choice : ProviderChoice) (provider : PaymentProvider)
    → provider_for digest choice true ≡ ok provider
    → provider ≡ disabled_provider
chosen_in_production digest disabled provider e = sym (ok_injective e)
chosen_in_production digest fake provider e = absurd (err_is_not_ok e)

selected_in_production :
    (digest : String → String) (settings : Settings) (provider : PaymentProvider)
    → is_production settings.environment ≡ true
    → get_payment_provider digest settings ≡ ok provider
    → provider ≡ disabled_provider
unfolding get_payment_provider
selected_in_production digest settings provider production e =
    either settings.real_money_enabled settings.provider (is_production settings.environment)
      production e
  where
    either :
        (b : Bool) (choice : ProviderChoice) (in_production : Bool)
        → in_production ≡ true
        → (raise_if b (
              Error.value_error
                "Real-money collaboration payments are not supported by any configured provider")
            >> provider_for digest choice in_production)
          ≡ ok provider
        → provider ≡ disabled_provider
    either true choice in_production p e = absurd (err_is_not_ok e)
    either false choice in_production p e =
        chosen_in_production digest choice provider
          (subst (λ x. provider_for digest choice x ≡ ok provider) p e)

initialize_when_disabled-Refuses :
    (id actor : ℕ) (key : String) (s : Session)
    → Refuses (initialize_provider_payment disabled_provider id actor key) s
unfolding initialize_provider_payment
initialize_when_disabled-Refuses id actor key s = Refuses-lift s _ _ λ valid_key _.
    Refuses-bind s (get_locked_relationship-Reads s id) λ found _.
      Refuses-bind s (validate_relationship-Reads s found.0 found.1) λ related _.
        Refuses-lift s _ _ λ payer _.
          Refuses-lift s _ _
            λ waiting _. Refuses-lift s _ _ λ r answer. absurd (err_is_not_ok answer)

-- In production, with whatever provider the settings select, if they select one, initializing any payment
-- with the provider is refused and changes nothing.
pub initialize_in_production-Refuses :
    (digest : String → String) (settings : Settings) (provider : PaymentProvider) (id actor : ℕ)
    (key : String) (s : Session)
    → is_production settings.environment ≡ true
    → get_payment_provider digest settings ≡ ok provider
    → Refuses (initialize_provider_payment provider id actor key) s
initialize_in_production-Refuses digest settings provider id actor key s production selected =
    subst (λ x. Refuses (initialize_provider_payment x id actor key) s)
      (sym (selected_in_production digest settings provider production selected))
      (initialize_when_disabled-Refuses id actor key s)
