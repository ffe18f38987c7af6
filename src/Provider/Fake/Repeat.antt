-- ===== src/Provider/Fake/Repeat.antt =====
-- The replay of the fake provider: an operation repeated with its key.
use connextion_z_luna.Prelude.{
  ℤ, String, pos, negsuc, Bool, true, false, ◌≡◌, refl, subst, ap, ◌∙◌, ◌&&◌, ◌||◌, Option, none,
  some, List, ◌∷◌, ltb, str_eq, eq_ℤ, is_blank, str_len, arith, if◌then◌else◌, str_eq_refl,
  str_eq_sound,
}
use connextion_z_luna.Errors.{Error, Result, ok, err}
use connextion_z_luna.Exec.{Exec, pure, raise, continue, ◌>>=◌}
use connextion_z_luna.Exec.Returns.{ok_injective, raise_is_not_return, passed, pass}
use connextion_z_luna.Provider.{ProviderResult}
use connextion_z_luna.Provider.Fake.{
  OperationName, RequestData, Replay, FakeProvider, same_request, opt_eq, find_replay,
  ensure_available, run_and_store, replay_or_run, execute, reused_key, unavailable_error,
}

available_passed :
    (f : Unit {0} → Exec FakeProvider ProviderResult) (s : FakeProvider) (r : ProviderResult)
    (s' : FakeProvider)
    → (ensure_available >>= f) s ≡ (ok r, s')
    → (s.is_unavailable ≡ false) × (f tt s ≡ (ok r, s'))
unfolding ensure_available ◌>>=◌
available_passed f s r s' h = passed s.is_unavailable unavailable_error f s s' r h

-- The answer is stored under the key, with the data of the request.
pub record IsStored (name : OperationName) (key : String) (request : RequestData)
    (r : ProviderResult) (s : FakeProvider) : Type 0 where
  pub replay : Replay
  pub found : find_replay name key s.operations ≡ some replay
  pub same : same_request replay.request request ≡ true
  pub result : replay.result ≡ r

eq_ℤ_refl : (a : ℤ) → eq_ℤ a a ≡ true
eq_ℤ_refl (pos n) = ground arith
eq_ℤ_refl (negsuc n) = ground arith

opt_eq_refl :
    {A : Type 0} (eq : A → A → Bool)
    → ((a : A) → eq a a ≡ true)
    → (o : Option A) → opt_eq eq o o ≡ true
opt_eq_refl eq h none = refl
opt_eq_refl eq h (some a) = h a

same_request_refl : (request : RequestData) → same_request request request ≡ true
same_request_refl request = rw (
  opt_eq_refl str_eq str_eq_refl request.reference,
  opt_eq_refl eq_ℤ eq_ℤ_refl request.amount,
  opt_eq_refl str_eq str_eq_refl request.currency,
)

-- The flags that make the provider fail.
abbrev pub flags : FakeProvider → Bool × Bool × Bool × Bool
flags s = (s.is_unavailable, s.authorization_fails, s.payment_fails, s.refund_fails)

module _ (name : OperationName) (key : String) (request : RequestData) where
  abbrev replay_of : ProviderResult → Replay
  replay_of answer = record {
    operation = name;
    idempotency_key = key;
    request = request;
    result = answer;
  }

  head_found :
      (answer : ProviderResult) (rest : List Replay)
      → find_replay name key (replay_of answer ∷ rest) ≡ some (replay_of answer)
  unfolding find_replay
  head_found answer rest = let same = str_eq_refl key in ground arith

  abbrev store : ProviderResult → FakeProvider → FakeProvider
  store answer s = record s { operations = replay_of answer ∷ s.operations }

  record IsDone (s : FakeProvider) (r : ProviderResult) (s' : FakeProvider) : Type 0 where
    pub stored : IsStored name key request r s'
    pub kept : flags s' ≡ flags s

  IsDone-run :
      (x : Result ProviderResult × FakeProvider) (s : FakeProvider) (r : ProviderResult)
      (s' : FakeProvider)
      → ((a : ProviderResult) → x.0 ≡ ok a → flags x.1 ≡ flags s)
      → continue x.0 (λ answer t. (ok answer, store answer t)) x.1 ≡ (ok r, s')
      → IsDone s r s'
  IsDone-run (ok a, t) s r s' keeps h =
      subst (λ x. IsDone s x s') (ok_injective (ap (λ x. x.0) h))
        (subst (IsDone s a) (ap (λ x. x.1) h) (record {
          stored = record {
            replay = replay_of a;
            found = head_found a t.operations;
            same = same_request_refl request;
            result = refl;
          };
          kept = keeps a refl;
        }))
  IsDone-run (err e, t) s r s' keeps h = absurd (raise_is_not_return h)

  IsDone-replay :
      (b : Bool) (e : Error) (previous : Replay) (s : FakeProvider) (r : ProviderResult)
      (s' : FakeProvider)
      → find_replay name key s.operations ≡ some previous
      → same_request previous.request request ≡ b
      → (if b then pure previous.result else raise e) s ≡ (ok r, s')
      → IsDone s r s'
  IsDone-replay true e previous s r s' found same h =
      subst (λ x. IsDone s x s') (ok_injective (ap (λ x. x.0) h))
        (subst (IsDone s previous.result) (ap (λ x. x.1) h) (record {
          stored = record { replay = previous; found = found; same = same; result = refl };
          kept = refl;
        }))
  IsDone-replay false e previous s r s' found same h = absurd (raise_is_not_return h)

  module _ (operation : Exec FakeProvider ProviderResult) where
    -- The operation leaves the flags alone.
    abbrev pub KeepsFlags : Type 0
    KeepsFlags =
        (s : FakeProvider) (a : ProviderResult)
        → (operation s).0 ≡ ok a
        → flags (operation s).1 ≡ flags s

    done :
        (o : Option Replay) (s : FakeProvider) (r : ProviderResult) (s' : FakeProvider)
        → KeepsFlags
        → find_replay name key s.operations ≡ o
        → replay_or_run o name key request operation s ≡ (ok r, s')
        → IsDone s r s'
    unfolding replay_or_run run_and_store ◌>>=◌
    done none s r s' keeps found h = IsDone-run (operation s) s r s' (keeps s) h
    done (some previous) s r s' keeps found h = IsDone-replay _ _ previous s r s' found refl h

    -- A stored answer is given again, and nothing changes.
    replayed :
        (s : FakeProvider) (r : ProviderResult)
        → IsStored name key request r s
        → replay_or_run (find_replay name key s.operations) name key request operation s ≡ (ok r, s)
    unfolding replay_or_run
    replayed s r h = rw (h.found, h.same, h.result)

    run_again :
        (r : ProviderResult) (s' : FakeProvider)
        → (is_blank key || ltb 128 (str_len key)) ≡ false
        → s'.is_unavailable ≡ false
        → IsStored name key request r s'
        → execute name key request operation s' ≡ (ok r, s')
    unfolding execute ensure_available ◌>>=◌
    run_again r s' valid free stored =
        pass _ _ _ s' valid
        ∙ pass s'.is_unavailable unavailable_error _ s' free
        ∙ replayed s' r stored

    -- A return leaves its answer stored, under a valid key, and the flags as they were.
    pub execute-stores :
        (s : FakeProvider) (r : ProviderResult) (s' : FakeProvider)
        → KeepsFlags
        → execute name key request operation s ≡ (ok r, s')
        → (is_blank key || ltb 128 (str_len key)) ≡ false
          × (s'.is_unavailable ≡ false)
          × IsStored name key request r s'
          × (flags s' ≡ flags s)
    unfolding execute replay_or_run ◌>>=◌
    execute-stores s r s' keeps h =
        let (valid, h1) = passed _ _ _ s s' r h in
        let (available, h2) = available_passed _ s r s' h1 in
        let d = done (find_replay name key s.operations) s r s' keeps refl h2 in
        (valid, ap (λ x. x.0) d.kept ∙ available, d.stored, d.kept)

    -- An operation that has returned returns the same again, and changes nothing then.
    pub execute-again :
        (s : FakeProvider) (r : ProviderResult) (s' : FakeProvider)
        → KeepsFlags
        → execute name key request operation s ≡ (ok r, s')
        → (execute name key request operation s' ≡ (ok r, s')) × (flags s' ≡ flags s)
    execute-again s r s' keeps h =
        let (valid, free, stored, kept) = execute-stores s r s' keeps h in
        (run_again r s' valid free stored, kept)

eq_ℤ_sound : (a b : ℤ) → eq_ℤ a b ≡ true → a ≡ b
eq_ℤ_sound (pos a) (pos b) h = ap pos (ground arith)
eq_ℤ_sound (negsuc a) (negsuc b) h = ap negsuc (ground arith)
eq_ℤ_sound (pos a) (negsuc b) h = cc
eq_ℤ_sound (negsuc a) (pos b) h = cc

opt_eq_sound :
    {A : Type 0} (eq : A → A → Bool)
    → ((a b : A) → eq a b ≡ true → a ≡ b)
    → (o p : Option A) → opt_eq eq o p ≡ true
    → o ≡ p
opt_eq_sound eq h none none e = refl
opt_eq_sound eq h none (some b) e = cc
opt_eq_sound eq h (some a) none e = cc
opt_eq_sound eq h (some a) (some b) e = ap some (h a b e)

parts : (a b c : Bool) → (a && b && c) ≡ true → (a ≡ true) × (b ≡ true) × (c ≡ true)
parts a b c h = ground arith

-- Requests with the same data conflict with the same requests.
same_request_transfer :
    (q r other : RequestData)
    → same_request q r ≡ true
    → same_request q other ≡ same_request r other
same_request_transfer q r other h =
    let (a, b, c) = parts _ _ _ h in
    rw (
      opt_eq_sound str_eq str_eq_sound q.reference r.reference a,
      opt_eq_sound eq_ℤ eq_ℤ_sound q.amount r.amount b,
      opt_eq_sound str_eq str_eq_sound q.currency r.currency c,
    )

-- Another request under a key in use is refused.
pub execute-conflict :
    (name : OperationName) (key : String) (request other : RequestData)
    (operation : Exec FakeProvider ProviderResult) (r : ProviderResult) (s : FakeProvider)
    → (is_blank key || ltb 128 (str_len key)) ≡ false
    → s.is_unavailable ≡ false
    → IsStored name key request r s
    → same_request request other ≡ false
    → execute name key other operation s ≡ (err reused_key, s)
unfolding execute ensure_available ◌>>=◌
execute-conflict name key request other operation r s valid free stored differ =
    pass _ _ _ s valid ∙ pass s.is_unavailable unavailable_error _ s free ∙ conflict
  where
    conflict :
        replay_or_run (find_replay name key s.operations) name key other operation s
        ≡ (err reused_key, s)
    conflict =
        unfold replay_or_run in
        rw (
          stored.found,
          same_request_transfer stored.replay.request request other stored.same ∙ differ,
        )
