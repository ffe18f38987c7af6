-- ===== src/Paid/Steps/Contexts.antt =====
-- The calls on interaction contexts are steps.
use connextion_z_luna.Prelude.{
  ℕ, String, true, ◌≡◌, refl, not, ◌&&◌, ◌==◌, Option, none, some, any, is_some, str_eq_sound,
  not-eq-false, ◌∙◌, ◌+◌,
}
use connextion_z_luna.Exec.Ends.{Ends, Ends-bind, Ends-gets, Ends-guard, Ends-case, returns, raises}
use connextion_z_luna.Paid.Model.{PaidDelivery, PaidInteractionContext}
use connextion_z_luna.Paid.Constraints.{context_constraints}
use connextion_z_luna.Paid.Database.{Database}
use connextion_z_luna.Paid.Writes.{impressed_for_engagement}
use connextion_z_luna.Paid.Contexts.{
  replace_context, update_context, find_context, is_usable, issue_selected, issue, consume_issued,
  consume, mark, context_ttl,
}
use connextion_z_luna.Paid.Rules.{
  Ends-found, Ends-nested, Ends-postgresql, Ends-selection, find-passes, ==_sound, &&_left,
  &&_right, not-eq-true, &&_four, is_none_of_not_some,
}
use connextion_z_luna.Paid.Steps.{Step, issued, consumed}

pub update_context-Ends :
    {Post : Unit {0} → Database → Type 0} (x : PaidInteractionContext) (s : Database)
    → Post tt (record s { contexts = replace_context x s.contexts })
    → Ends Post (update_context x s)
unfolding update_context
update_context-Ends x s h =
    Ends-case (context_constraints x) _ _ (λ good. returns tt _ h) (λ bad. raises _ s)

mark-Step :
    (context : Option PaidInteractionContext) (s : Database)
    → ((x : PaidInteractionContext)
        → context ≡ some x
        → find_context x.delivery_id x.viewer_id x.post_id x.token_hash s.contexts ≡ some x)
    → is_usable context s.now ≡ true
    → Ends (λ u t. Step s t) (mark context s.now s)
unfolding mark is_usable
mark-Step none s h usable = absurd cc
mark-Step (some x) s h usable =
    update_context-Ends (record x { consumed_at = some s.now }) s
      (consumed x (h x refl) (is_none_of_not_some x.consumed_at (&&_left _ _ usable))
        (&&_right (not (is_some x.consumed_at)) _ usable))

-- A context that is found by its columns is found by them again.
find_context-again :
    (delivery_id viewer_id post_id : ℕ) (token_hash : String) (s : Database)
    (x : PaidInteractionContext)
    → find_context delivery_id viewer_id post_id token_hash s.contexts ≡ some x
    → find_context x.delivery_id x.viewer_id x.post_id x.token_hash s.contexts ≡ some x
unfolding find_context
find_context-again delivery_id viewer_id post_id token_hash s x found =
    let hit = find-passes _ s.contexts x found in
    let (d, v, p, h) = &&_four _ _ _ _ hit in
    let same =
      found_at x.delivery_id x.viewer_id x.post_id x.token_hash
        (==_sound x.delivery_id delivery_id d) (==_sound x.viewer_id viewer_id v)
        (==_sound x.post_id post_id p) (str_eq_sound x.token_hash token_hash h) in
    same ∙ found
  where
    found_at :
        (d v p : ℕ) (h : String)
        → d ≡ delivery_id
        → v ≡ viewer_id
        → p ≡ post_id
        → h ≡ token_hash
        → find_context d v p h s.contexts
          ≡ find_context delivery_id viewer_id post_id token_hash s.contexts
    found_at d v p h a b c e = cc

module _ (digest : String → String) where
  pub issue-Step :
      (viewer_id delivery_id : ℕ) (token : String) (s : Database)
      → Ends (λ t r. Step s r) (issue digest viewer_id delivery_id token s)
  unfolding issue
  issue-Step viewer_id delivery_id token s = Ends-postgresql _ s λ p. Ends-bind _ _ s (
      Ends-nested (issue_selected digest viewer_id delivery_id token) s (
        Ends-selection delivery_id viewer_id _ s λ d found.
          Ends-gets (λ t. t.now) _ s
            (Ends-case _ _ _
              (λ h. returns tt _ (
                returns token _ (
                  issued (context d) refl (
                    not-eq-true _ (
                      &&_right
                        (context_constraints (context d)
                          && any (λ e. e.id == d.id) s.deliveries
                          && any (λ p. p.id == d.post_id) s.posts)
                        _ h)))))
              (λ h. raises _ s))))
    where
      context : PaidDelivery → PaidInteractionContext
      context d = record {
        delivery_id = d.id;
        viewer_id = d.viewer_id;
        post_id = d.post_id;
        token_hash = digest token;
        expires_at = s.now + context_ttl;
        consumed_at = none;
      }

  pub consume-Step :
      (token : String) (viewer_id post_id delivery_id : ℕ) (s : Database)
      → Ends (λ u t. Step s t) (consume digest token viewer_id post_id delivery_id s)
  unfolding consume
  consume-Step token viewer_id post_id delivery_id s = Ends-postgresql _ s λ p.
      Ends-guard _ _ _ s λ sized. Ends-guard _ _ _ s λ ascii.
        Ends-nested (consume_issued digest token viewer_id post_id delivery_id) s (
          Ends-bind (impressed_for_engagement delivery_id viewer_id post_id) _ s (
            Ends-found _ _ s λ d found. Ends-gets _ _ s (
              Ends-gets (λ t. t.now) _ s
                (Ends-guard _ _ _ s λ usable.
                  mark-Step _ s (find_context-again delivery_id viewer_id post_id (digest token) s)
                    (not-eq-false _ usable)))))
