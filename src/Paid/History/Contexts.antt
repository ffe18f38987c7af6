-- ===== src/Paid/History/Contexts.antt =====
-- An interaction context is used once at most.
use connextion_z_luna.Prelude.{
  ℕ, String, Bool, true, false, ◌≡◌, refl, ◌∙◌, not, ◌||◌, ◌==◌, Option, none, some, is_some, List,
  [], ◌∷◌, ◌++◌, any, find, All, str_eq, not-eq-false, arith, Bool-cases, inl, inr,
}
use connextion_z_luna.Errors.{Result, ok, err, is_ok}
use connextion_z_luna.Exec.Ends.{Ends, Ends-bind, Ends-gets, Ends-guard}
use connextion_z_luna.Paid.Model.{PaidInteractionContext}
use connextion_z_luna.Paid.Database.{Database}
use connextion_z_luna.Paid.Writes.{impressed_for_engagement}
use connextion_z_luna.Paid.Contexts.{
  find_context, is_usable, mark, replace_context, consume_issued, consume,
}
use connextion_z_luna.Paid.Calls.{Event, served, elsewhere, handle, history}
use connextion_z_luna.Paid.Rules.{
  Ends-found, Ends-nested, Ends-postgresql, find-passes, ==_sound, &&_four,
}
use connextion_z_luna.Paid.Steps.{
  Step, stay, created, updated, selected, recorded, issued, consumed,
}
use connextion_z_luna.Paid.Steps.Contexts.{update_context-Ends}
use connextion_z_luna.Paid.Steps.Calls.{serve-Step}
use connextion_z_luna.Paid.Accounts.Rows.{All-snoc, All-find, All-map-if}

abbrev is_of : ℕ → PaidInteractionContext → Bool
is_of delivery_id x = x.delivery_id == delivery_id

-- A row of the delivery is a used one.
abbrev IsUsedIfOf : ℕ → PaidInteractionContext → Type 0
IsUsedIfOf delivery_id x = is_of delivery_id x ≡ true → is_some x.consumed_at ≡ true

-- The delivery has a context, and has no unused one.
record IsUsed (delivery_id : ℕ) (contexts : List PaidInteractionContext) : Type 0 where
  present : any (is_of delivery_id) contexts ≡ true
  used : All (IsUsedIfOf delivery_id) contexts

any-snoc :
    (k : ℕ) (xs : List PaidInteractionContext) (x : PaidInteractionContext)
    → any (is_of k) xs ≡ true
    → any (is_of k) (xs ++ x ∷ []) ≡ true
any-snoc k [] x h = absurd cc
any-snoc k (y ∷ xs) x h = ground (arith, any-snoc k xs x)

any-replaced :
    (k : ℕ) (x : PaidInteractionContext) (xs : List PaidInteractionContext)
    → any (is_of k) (replace_context x xs) ≡ any (is_of k) xs
unfolding replace_context
any-replaced k x [] = refl
any-replaced k x (y ∷ xs) = ground (arith, any-replaced k x xs)

unused-other :
    (k : ℕ) (x : PaidInteractionContext) (xs : List PaidInteractionContext)
    → any (is_of k) xs ≡ true
    → any (λ y. y.delivery_id == x.delivery_id || str_eq y.token_hash x.token_hash) xs ≡ false
    → is_of k x ≡ false
unused-other k x [] p h = absurd cc
unused-other k x (y ∷ xs) p h = ground (arith, unused-other k x xs)

found-present :
    (k : ℕ) (test : PaidInteractionContext → Bool) (xs : List PaidInteractionContext)
    (x : PaidInteractionContext)
    → find test xs ≡ some x
    → is_of k x ≡ true
    → any (is_of k) xs ≡ true
found-present k test [] x h e = absurd cc
found-present k test (y ∷ xs) x h e = ground (arith, found-present k test xs x)

Step-IsUsed : (k : ℕ) (s t : Database) → Step s t → IsUsed k s.contexts → IsUsed k t.contexts
Step-IsUsed k s t stay h = h
Step-IsUsed k s t (created c n) h = h
Step-IsUsed k s t (updated c d found u) h = h
Step-IsUsed k s t (selected d fresh there unused) h = h
Step-IsUsed k s t (recorded c d i e) h = h
Step-IsUsed k s t (issued x fresh unused) h = record {
  present = any-snoc k s.contexts x h.present;
  used =
      All-snoc (IsUsedIfOf k) s.contexts x h.used
        (λ e. absurd (ground (arith, unused-other k x s.contexts h.present unused)));
}
Step-IsUsed k s t (consumed x found fresh live) h = record {
  present = any-replaced k (record x { consumed_at = some s.now }) s.contexts ∙ h.present;
  used =
      unfold replace_context in
      All-map-if (IsUsedIfOf k) (λ y. y.delivery_id == x.delivery_id)
        (λ y. record x { consumed_at = some s.now }) s.contexts (λ y hit p e. refl) h.used;
}

marked-All :
    (k : ℕ) (x : PaidInteractionContext) (now : ℕ)
    → x.delivery_id ≡ k
    → (xs : List PaidInteractionContext)
    → All (IsUsedIfOf k) (replace_context (record x { consumed_at = some now }) xs)
unfolding replace_context
marked-All k x now mine [] = tt
marked-All k x now mine (y ∷ xs) = elim (Bool-cases (y.delivery_id == x.delivery_id)) [
  | inl hit ↦ rw hit (λ e. refl, marked-All k x now mine xs)
  | inr miss ↦ rw miss (λ e. absurd (ground arith), marked-All k x now mine xs)
]

module _ (digest : String → String) where
  history-IsUsed :
      (k : ℕ) (events : List Event) (s : Database)
      → IsUsed k s.contexts
      → IsUsed k (history digest events s).contexts
  unfolding history handle
  history-IsUsed k [] s h = h
  history-IsUsed k (served call ∷ events) s h =
      history-IsUsed k events _ (Step-IsUsed k s _ (serve-Step digest call s) h)
  history-IsUsed k (elsewhere users profiles posts blocks mutes now new_id ∷ events) s h =
      history-IsUsed k events _ h

  mark-IsUsed :
      (k : ℕ) (context : Option PaidInteractionContext) (s : Database)
      → ((x : PaidInteractionContext)
          → context ≡ some x
          → (any (is_of k) s.contexts ≡ true) × (x.delivery_id ≡ k))
      → is_usable context s.now ≡ true
      → Ends (λ u t. IsUsed k t.contexts) (mark context s.now s)
  unfolding mark is_usable
  mark-IsUsed k none s h usable = absurd cc
  mark-IsUsed k (some x) s h usable =
      let (present, mine) = h x refl in
      update_context-Ends (record x { consumed_at = some s.now }) s
        (record {
          present = any-replaced k (record x { consumed_at = some s.now }) s.contexts ∙ present;
          used = marked-All k x s.now mine s.contexts;
        })

  -- After a consumption the delivery has no unused context.
  consume-IsUsed :
      (token : String) (viewer_id post_id delivery_id : ℕ) (s : Database)
      → Ends
          (λ u t. IsUsed delivery_id t.contexts)
          (consume digest token viewer_id post_id delivery_id s)
  unfolding consume find_context
  consume-IsUsed token viewer_id post_id delivery_id s = Ends-postgresql _ s λ p.
      Ends-guard _ _ _ s λ sized. Ends-guard _ _ _ s λ ascii.
        Ends-nested (consume_issued digest token viewer_id post_id delivery_id) s (
          Ends-bind (impressed_for_engagement delivery_id viewer_id post_id) _ s (
            Ends-found _ _ s λ d found. Ends-gets _ _ s (
              Ends-gets (λ t. t.now) _ s
                (Ends-guard _ _ _ s λ usable.
                  mark-IsUsed delivery_id _ s
                    (λ x known.
                      let (mine, v, p, h) = &&_four _ _ _ _ (find-passes _ s.contexts x known) in
                      (
                        found-present delivery_id _ s.contexts x known mine,
                        ==_sound x.delivery_id delivery_id mine,
                      ))
                    (not-eq-false _ usable)))))

  used-Refuses :
      (token : String) (viewer_id post_id delivery_id : ℕ) (s : Database)
      → IsUsed delivery_id s.contexts
      → Ends (λ u t. ⊥) (consume digest token viewer_id post_id delivery_id s)
  unfolding consume find_context is_usable
  used-Refuses token viewer_id post_id delivery_id s h = Ends-postgresql _ s λ p.
      Ends-guard _ _ _ s λ sized. Ends-guard _ _ _ s λ ascii.
        Ends-nested (consume_issued digest token viewer_id post_id delivery_id) s (
          Ends-bind (impressed_for_engagement delivery_id viewer_id post_id) _ s (
            Ends-found _ _ s λ d found. Ends-gets _ _ s (
              Ends-gets (λ t. t.now) _ s
                (Ends-guard _ _ _ s
                  λ usable. absurd (refused _ (λ x known. used x known) usable)))))
    where
      used :
          (x : PaidInteractionContext)
          → find_context delivery_id viewer_id post_id (digest token) s.contexts ≡ some x
          → is_some x.consumed_at ≡ true
      used x known =
          let (mine, v, p, h') = &&_four _ _ _ _ (find-passes _ s.contexts x known) in
          All-find (IsUsedIfOf delivery_id) _ s.contexts x h.used known mine

      refused :
          (context : Option PaidInteractionContext)
          → ((x : PaidInteractionContext) → context ≡ some x → is_some x.consumed_at ≡ true)
          → not (is_usable context s.now) ≡ false
          → ⊥
      refused none f e = absurd cc
      refused (some x) f e = ground (arith, f x refl)

never_returns : {A : Type 0} (r : Result A × Database) → Ends (λ a t. ⊥) r → is_ok r.0 ≡ false
never_returns (err e, t) h = refl
never_returns (ok a, t) h = absurd h.at

-- Once an interaction context of a delivery has been consumed, no consumption for that delivery
-- returns again, whatever its token, viewer and post, after any calls and any changes elsewhere.
pub consume_once :
    (digest : String → String) (token : String) (viewer_id post_id delivery_id : ℕ) (s : Database)
    (events : List Event) (token' : String) (viewer_id' post_id' : ℕ)
    → is_ok (consume digest token viewer_id post_id delivery_id s).0 ≡ true
    → is_ok
        (consume digest token' viewer_id' post_id' delivery_id
          (history digest events (consume digest token viewer_id post_id delivery_id s).1)).0
      ≡ false
consume_once digest token viewer_id post_id delivery_id s events token' viewer_id' post_id' h =
    never_returns _ (
      used-Refuses digest token' viewer_id' post_id' delivery_id _ (
        history-IsUsed digest delivery_id events _
          (after _ h (consume-IsUsed digest token viewer_id post_id delivery_id s))))
  where
    after :
        (r : Result (Unit {0}) × Database)
        → is_ok r.0 ≡ true
        → Ends (λ u t. IsUsed delivery_id t.contexts) r
        → IsUsed delivery_id r.1.contexts
    after (err e, t) k p = absurd cc
    after (ok u, t) k p = p.at
