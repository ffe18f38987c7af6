-- ===== src/Paid/Contexts.antt =====
-- backend/services/paid_interaction_context_service.py. `digest` is SHA-256 with its hexadecimal
-- form; the random token of `issue` is an argument. A delivery has one context at most, so the
-- delivery names the row that a write changes.
use connextion_z_luna.Prelude.{
  ℕ, String, Bool, false, not, ◌&&◌, ◌||◌, ltb, leb, ◌==◌, ◌+◌, Option, none, some, is_some, List,
  [], ◌∷◌, ◌++◌, map, any, find, if◌then◌else◌, str_eq, str_len, all_chars,
}
use connextion_z_luna.Errors.{Error, ok, err, raise_if}
use connextion_z_luna.Exec.{Exec, gets, pure, lift, ◌>>=◌, ◌>>◌}
use connextion_z_luna.Paid.Model.{PaidInteractionContext}
use connextion_z_luna.Paid.Constraints.{context_constraints}
use connextion_z_luna.Paid.Database.{Database}
use connextion_z_luna.Paid.Writes.{
  begin_nested, require_postgresql, get_selection, impressed_for_engagement,
}

-- Five minutes, in microseconds.
abbrev pub context_ttl : ℕ
context_ttl = 300000000

abbrev pub max_context_length : ℕ
max_context_length = 128

-- The INSERT: the delivery and the hash are unique, and the delivery and the post exist.
unfoldable pub insert_context : PaidInteractionContext → Exec Database (Unit {0})
unfolding context_constraints
insert_context x s =
    if context_constraints x
      && any (λ d. d.id == x.delivery_id) s.deliveries
      && any (λ p. p.id == x.post_id) s.posts
      && not
          (any (λ y. y.delivery_id == x.delivery_id || str_eq y.token_hash x.token_hash) s.contexts)
    then (ok tt, record s { contexts = s.contexts ++ x ∷ [] })
    else (err Error.integrity_error, s)

unfoldable pub replace_context :
    PaidInteractionContext → List PaidInteractionContext → List PaidInteractionContext
replace_context x rows = map (λ y. if y.delivery_id == x.delivery_id then x else y) rows

unfoldable pub update_context : PaidInteractionContext → Exec Database (Unit {0})
unfolding context_constraints replace_context
update_context x s =
    if context_constraints x
    then (ok tt, record s { contexts = replace_context x s.contexts })
    else (err Error.integrity_error, s)

unfoldable pub find_context :
    ℕ → ℕ → ℕ → String → List PaidInteractionContext → Option PaidInteractionContext
find_context delivery_id viewer_id post_id token_hash = find (λ x.
    x.delivery_id == delivery_id
    && x.viewer_id == viewer_id
    && x.post_id == post_id
    && str_eq x.token_hash token_hash)

-- A context that may be used: not used before and not expired.
unfoldable pub is_usable : Option PaidInteractionContext → ℕ → Bool
is_usable none now = false
is_usable (some x) now = not (is_some x.consumed_at) && ltb now x.expires_at

-- The context with a time of its use.
unfoldable pub mark : Option PaidInteractionContext → ℕ → Exec Database (Unit {0})
unfolding update_context
mark none now = pure tt
mark (some x) now = update_context (record x { consumed_at = some now })

module _ (digest : String → String) where
  unfoldable pub issue_selected : ℕ → ℕ → String → Exec Database (Unit {0})
  unfolding get_selection insert_context
  issue_selected viewer_id delivery_id token = do
    selection ← get_selection delivery_id viewer_id
    now ← gets (λ s. s.now)
    insert_context (record {
      delivery_id = selection.id;
      viewer_id = selection.viewer_id;
      post_id = selection.post_id;
      token_hash = digest token;
      expires_at = now + context_ttl;
      consumed_at = none;
    })

  unfoldable pub issue : ℕ → ℕ → String → Exec Database String
  unfolding require_postgresql begin_nested issue_selected
  issue viewer_id delivery_id token = do
    require_postgresql
    begin_nested (issue_selected viewer_id delivery_id token)
    pure token

  unfoldable pub consume_issued : String → ℕ → ℕ → ℕ → Exec Database (Unit {0})
  unfolding impressed_for_engagement find_context is_usable mark
  consume_issued token viewer_id post_id delivery_id = do
    delivery ← impressed_for_engagement delivery_id viewer_id post_id
    context ← gets (λ s. find_context delivery_id viewer_id post_id (digest token) s.contexts)
    now ← gets (λ s. s.now)
    lift (
        raise_if (not (is_usable context now))
          (Error.value_error "Paid interaction context is invalid or expired"))
    mark context now

  unfoldable pub consume : String → ℕ → ℕ → ℕ → Exec Database (Unit {0})
  unfolding require_postgresql begin_nested consume_issued str_len all_chars
  consume token viewer_id post_id delivery_id = do
    require_postgresql
    lift (
        raise_if (not (leb 1 (str_len token) && leb (str_len token) max_context_length))
          (Error.value_error "Paid interaction context is invalid"))
    lift (
        raise_if (not (all_chars (λ c. ltb c 128) token))
          (Error.value_error "Paid interaction context is invalid"))
    begin_nested (consume_issued token viewer_id post_id delivery_id)
