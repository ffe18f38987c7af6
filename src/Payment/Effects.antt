-- ===== src/Payment/Effects.antt =====
-- What a transition leaves in the session, for the operations that write a row.
use connextion_z_luna.Prelude.{
  ℕ, Bool, true, false, ◌≡◌, ◌⊎◌, refl, subst, sym, ◌==◌, List, inl, inr, All, arith, if◌then◌else◌,
}
use connextion_z_luna.Errors.{Error, Result, ok, err}
use connextion_z_luna.Exec.{Exec, raise, lift, attempt, on_error, ◌>>=◌, ◌>>◌}
use connextion_z_luna.Payment.Model.{Collaboration, CollaborationPayment}
use connextion_z_luna.Payment.Session.{Session, replace, set_attributes, save, rollback}
use connextion_z_luna.Payment.Guards.{Request, transition_guards}
use connextion_z_luna.Payment.Transition.{
  AuditUpdate, set_audit, stamp, commit_stamp, apply_transition, restore, transition,
}
use connextion_z_luna.Payment.Rules.{
  IsClean, IsWorking, IsRecoverable, Yields, Finishes, Holds, replace-All, replace-Spares,
  All-Spares, Yields-continue,
}

id-stamp : (now : ℕ) (r : Request) (q : CollaborationPayment) → (stamp now r q).id ≡ q.id
unfolding stamp
id-stamp now r q = ground arith

Result-cases : (r : Result (Unit {0})) → (r ≡ ok tt) ⊎ ((e : Error) × (r ≡ err e))
Result-cases (ok tt) = inl refl
Result-cases (err e) = inr (e, refl)

module _ (P : CollaborationPayment → Type 0) where
  -- The handler leaves the committed rows alone.
  restore-IsRecoverable :
      (p : CollaborationPayment) (e : Error) (s : Session)
      → All P s.committed
      → Yields P P (restore p e s)
  unfolding restore set_attributes ◌>>=◌
  restore-IsRecoverable p Error.integrity_error s h = record { committed = h }
  restore-IsRecoverable p Error.lookup_error s h = record { committed = h }
  restore-IsRecoverable p Error.overflow_error s h = record { committed = h }
  restore-IsRecoverable p Error.data_error s h = record { committed = h }
  restore-IsRecoverable p Error.zero_division_error s h = record { committed = h }
  restore-IsRecoverable p Error.not_implemented_error s h = record { committed = h }
  restore-IsRecoverable p (Error.value_error t) s h = record { committed = h }
  restore-IsRecoverable p (Error.permission_error t) s h = record { committed = h }
  restore-IsRecoverable p (Error.provider_error t) s h = record { committed = h }
  restore-IsRecoverable p (Error.rate_limited t) s h = record { committed = h }
  restore-IsRecoverable p (Error.history_unavailable t) s h = record { committed = h }

  -- Either way of the flush.
  flush_ends :
      (b : Bool) (q : CollaborationPayment) (s : Session)
      → P q
      → IsClean P s
      → Yields P P
          (if b then (ok q, s) else (err Error.integrity_error, record s { rows = s.committed }))
  flush_ends true q s good h = (good, h)
  flush_ends false q s good h = record { committed = h.committed }

  save_ends : (q : CollaborationPayment) (s : Session) → P q → IsClean P s → Yields P P (save q s)
  unfolding save
  save_ends q s good h = flush_ends _ q s good h

  handled :
      (p : CollaborationPayment) (result : Result CollaborationPayment) (s : Session)
      → Yields P P (result, s)
      → Yields P P (on_error result (restore p) s)
  handled p (ok q) s h = h
  handled p (err e) s h = restore-IsRecoverable p e s h.committed

module _ {P : CollaborationPayment → Type 0} where
  -- Writing a row with `P` and flushing it cleans the session.
  pub save-Finishes :
      (id : ℕ) (q : CollaborationPayment)
      → q.id ≡ id
      → P q
      → Finishes P id (set_attributes q >> save q) P
  unfolding set_attributes ◌>>=◌
  save-Finishes id q same good = record {
    at = λ s h.
        save_ends P q (record s { rows = replace q s.rows }) good
          (record {
            rows =
                replace-All P q s.rows good
                  (subst (λ n. All (λ x. (x.id == n) ≡ false → P x) s.rows) (sym same) h.others);
            committed = h.committed;
          });
  }

  guarded :
      (c : Collaboration) (q : CollaborationPayment) (r : Request) (checked : Result (Unit {0}))
      (s : Session)
      → ((now : ℕ) → checked ≡ ok tt → P (stamp now r q))
      → IsWorking P q.id s
      → Yields P P ((lift checked >>= λ _. commit_stamp r q) s)
  unfolding ◌>>=◌ commit_stamp
  guarded c q r (ok tt) s good h =
      (save-Finishes q.id (stamp s.now r q) (id-stamp s.now r q) (good s.now refl)).at s h
  guarded c q r (err e) s good h = record { committed = h.committed }

  apply_transition-Finishes :
      (c : Collaboration) (q : CollaborationPayment) (r : Request)
      → ((now : ℕ) → transition_guards c q r ≡ ok tt → P (stamp now r q))
      → Finishes P q.id (apply_transition c q r) P
  unfolding apply_transition
  apply_transition-Finishes c q r good = record {
    at = λ s h. guarded c q r (transition_guards c q r) s good h;
  }

  -- A transition from the row `p`, whose audits make it `q`.
  pub transition-Finishes :
      (c : Collaboration) (p q : CollaborationPayment) (r : Request) (updates : List AuditUpdate)
      → set_audit updates p ≡ ok q
      → ((now : ℕ) → transition_guards c q r ≡ ok tt → P (stamp now r q))
      → Finishes P q.id (transition c p r updates) P
  unfolding transition attempt ◌>>=◌
  transition-Finishes c p q r updates audited good = record {
    at = λ s h.
        let (result, s') = apply_transition c q r s in
        rw audited (handled P p result s' ((apply_transition-Finishes c q r good).at s h));
  }

  -- The first write of a call.
  pub Holds-write :
      {B : Type 0} {R : B → Type 0} (q : CollaborationPayment) (f : Unit {0} → Exec Session B)
      → Finishes P q.id (f tt) R
      → Holds P (set_attributes q >>= f) R
  unfolding set_attributes ◌>>=◌
  Holds-write q f k = record {
    at = λ s h.
        k.at (record s { rows = replace q s.rows })
          (record {
            others = replace-Spares P q s.rows (All-Spares P q.id s.rows h.rows);
            committed = h.committed;
          });
  }

  pub Finishes-bind :
      {A B : Type 0} {Q : A → Type 0} {R : B → Type 0} {id : ℕ} {m : Exec Session A}
      {f : A → Exec Session B}
      → Finishes P id m Q
      → ((a : A) → Q a → Holds P (f a) R)
      → Finishes P id (m >>= f) R
  unfolding ◌>>=◌
  Finishes-bind {Q = Q} {R = R} {m = m} {f = f} t k = record {
    at = λ s h. let (r, s') = m s in Yields-continue Q R r s' f (t.at s h) k;
  }

module _ (P : CollaborationPayment → Type 0) {A : Type 0} (R : A → Type 0) where
  -- An action that starts from what a raise leaves.
  pub record Recovers (m : Exec Session A) : Type 0 where
    pub at : (s : Session) → IsRecoverable P s → Yields P R (m s)

  Yields-on_error :
      (r : Result A) (s : Session) (handler : Error → Exec Session A)
      → Yields P R (r, s)
      → ((e : Error) → Recovers (handler e))
      → Yields P R (on_error r handler s)
  Yields-on_error (ok a) s handler h k = h
  Yields-on_error (err e) s handler h k = (k e).at s h

module _ {P : CollaborationPayment → Type 0} {A : Type 0} {R : A → Type 0} where
  pub Finishes-attempt :
      {id : ℕ} {m : Exec Session A} {handler : Error → Exec Session A}
      → Finishes P id m R
      → ((e : Error) → Recovers P R (handler e))
      → Finishes P id (attempt m handler) R
  unfolding attempt
  Finishes-attempt {m = m} {handler = handler} t k = record {
    at = λ s h. let (r, s') = m s in Yields-on_error P R r s' handler (t.at s h) k;
  }

  pub Recovers-raise : (e : Error) → Recovers P R (raise e)
  Recovers-raise e = record { at = λ s h. h }

  -- A rollback makes the session clean again.
  pub Recovers-rollback :
      (f : Unit {0} → Exec Session A) → Holds P (f tt) R → Recovers P R (rollback >>= f)
  unfolding rollback ◌>>=◌
  Recovers-rollback f k = record {
    at = λ s h.
        k.at (record s { rows = s.committed })
          (record { rows = h.committed; committed = h.committed });
  }
