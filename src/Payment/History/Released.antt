-- ===== src/Payment/History/Released.antt =====
-- What stands behind a completed, a pending and a made release.
use connextion_z_luna.Prelude.{
  ℕ, String, Bool, true, false, not, ◌≡◌, refl, ◌&&◌, ◌||◌, Option, none, some, List, [], ◌∷◌, All,
  is_some, is_text, arith,
}
use connextion_z_luna.Errors.{ok}
use connextion_z_luna.Payment.Model.{
  Collaboration, CollaborationPayment, CollaborationPaymentState, state_in, pending,
  authorized_held, release_pending, released, refunded, disputed,
}
use connextion_z_luna.Payment.Audit.{
  hold_operation, completion_operation, release_operation, dispute_operation,
  dispute_resolution_operation,
}
use connextion_z_luna.Payment.Session.{Session}
use connextion_z_luna.Payment.Guards.{
  Request, valid_payment_transitions, transition_guards, trust_guards,
}
use connextion_z_luna.Payment.Transition.{stamp}
use connextion_z_luna.Payment.Hold.{set_hold}
use connextion_z_luna.Payment.Calls.{Event, history}
use connextion_z_luna.Payment.Steps.{
  PaymentStep, holding, moving, confirming, releasing, cancelling, refunding, disputing,
  cancelling_dispute, refunding_dispute, binding, confirm, authorize, mark_cancelled, mark_refunded,
  mark_disputed, mark_resolved,
}
use connextion_z_luna.Payment.Keeps.Create.{Creates, Creates-of}
use connextion_z_luna.Payment.Keeps.Calls.{history-IsClean}
use connextion_z_luna.Payment.Sound.Stamps.{valid-of-Allowed}
use connextion_z_luna.Payment.History.Constrained.{All-map, empty-IsClean}

abbrev is_held : CollaborationPayment → Bool
is_held p = is_some p.authorized_at && is_text p.authorized_by_operation hold_operation

abbrev is_confirmed : CollaborationPayment → Bool
is_confirmed p =
    is_some p.completed_at && is_text p.completion_confirmed_by_operation completion_operation

abbrev is_release_authorized : CollaborationPayment → Bool
is_release_authorized p =
    is_some p.release_pending_at && is_text p.release_authorized_by_operation release_operation

-- Each state with the audits of the way to it.
is_audited : CollaborationPayment → Bool
is_audited p =
    (state_in p.state (pending ∷ CollaborationPaymentState.cancelled ∷ []) || is_held p)
    && (not
          (state_in p.state (CollaborationPaymentState.completed ∷ release_pending ∷ released ∷ []))
        || is_confirmed p)
    && (not (state_in p.state (release_pending ∷ released ∷ [])) || is_release_authorized p)
    && (not (state_in p.state (released ∷ [])) || is_some p.released_at)

-- The marks that a target needs.
is_marked : CollaborationPaymentState → CollaborationPayment → Bool
is_marked t p =
    (not (state_in t (authorized_held ∷ [])) || is_text p.authorized_by_operation hold_operation)
    && (not (state_in t (CollaborationPaymentState.completed ∷ []))
        || is_text p.completion_confirmed_by_operation completion_operation)
    && (not (state_in t (release_pending ∷ []))
        || is_text p.release_authorized_by_operation release_operation)

marked-of-Allowed :
    (c : Collaboration) (p : CollaborationPayment) (r : Request)
    → transition_guards c p r ≡ ok tt
    → is_marked r.target p ≡ true
unfolding transition_guards trust_guards is_marked
marked-of-Allowed c p r h = ground arith

module _ (now : ℕ) (k o : Option String) (p : CollaborationPayment) where
  stamp-is_audited :
      (t : CollaborationPaymentState)
      → state_in t (valid_payment_transitions p.state) ≡ true
      → is_marked t p ≡ true
      → is_audited p ≡ true
      → is_audited (stamp now (record { target = t; authorization_key = k; operation = o }) p)
        ≡ true
  unfolding stamp is_audited is_marked
  stamp-is_audited pending v m h = ground arith
  stamp-is_audited _ v m h = ground arith

  allowed-is_audited :
      (c : Collaboration) (t : CollaborationPaymentState)
      → transition_guards c p (record { target = t; authorization_key = k; operation = o }) ≡ ok tt
      → is_audited p ≡ true
      → is_audited (stamp now (record { target = t; authorization_key = k; operation = o }) p)
        ≡ true
  allowed-is_audited c t g h =
      stamp-is_audited t (valid-of-Allowed c p _ g) (marked-of-Allowed c p _ g) h

confirm-is_audited :
    (p : CollaborationPayment) → is_audited p ≡ true → is_audited (confirm p) ≡ true
unfolding is_audited
confirm-is_audited p h = ground arith

authorize-is_audited :
    (p : CollaborationPayment) → is_audited p ≡ true → is_audited (authorize p) ≡ true
unfolding is_audited
authorize-is_audited p h = ground arith

PaymentStep-is_audited :
    {p q : CollaborationPayment} → PaymentStep p q → is_audited p ≡ true → is_audited q ≡ true
unfolding is_audited set_hold
PaymentStep-is_audited {p} (holding c q now fresh g) h =
    allowed-is_audited now (some q.idempotency_key) none (set_hold q p) c authorized_held g
      (ground arith)
PaymentStep-is_audited {p} (moving c t now u g) h = allowed-is_audited now none none p c t g h
PaymentStep-is_audited {p} (confirming c now g) h =
    allowed-is_audited now none none (confirm p) c CollaborationPaymentState.completed g
      (confirm-is_audited p h)
PaymentStep-is_audited {p} (releasing c now g) h =
    allowed-is_audited now none none (authorize p) c release_pending g (authorize-is_audited p h)
PaymentStep-is_audited {p} (cancelling c o now calm g) h =
    allowed-is_audited now none (some o) (mark_cancelled o p) c CollaborationPaymentState.cancelled
      g h
PaymentStep-is_audited {p} (refunding c o now a calm g) h =
    allowed-is_audited now none (some o) (mark_refunded o p) c refunded g h
PaymentStep-is_audited {p} (disputing c actor now g) h =
    allowed-is_audited now none (some dispute_operation) (mark_disputed actor p) c disputed g h
PaymentStep-is_audited {p} (cancelling_dispute c now d a g) h =
    allowed-is_audited now none (some dispute_resolution_operation)
      (mark_cancelled dispute_resolution_operation (mark_resolved p)) c
      CollaborationPaymentState.cancelled g h
PaymentStep-is_audited {p} (refunding_dispute c o now d a g) h =
    allowed-is_audited now none (some o) (mark_resolved (mark_refunded o p)) c refunded g h
PaymentStep-is_audited (binding provider reference unpaid) h = h

abbrev IsAudited : CollaborationPayment → Type 0
IsAudited p = is_audited p ≡ true

IsAudited-Creates : Creates IsAudited
unfolding is_audited
IsAudited-Creates = Creates-of (λ row id payer recipient amount currency v d. refl)

-- A payment that was paid out without a held authorization, a confirmed completion or an authorized
-- release.
abbrev pub is_paid_unaudited : CollaborationPayment → Bool
is_paid_unaudited p =
    state_in p.state (released ∷ []) && not (is_held p && is_confirmed p && is_release_authorized p)

IsAudited-is_paid_unaudited : (p : CollaborationPayment) → IsAudited p → is_paid_unaudited p ≡ false
unfolding is_audited
IsAudited-is_paid_unaudited p h = ground arith

-- From an empty table, no sequence of served calls, interleaved with any changes elsewhere, makes a
-- payment that is `RELEASED` without a hold by the internal operation, a completion that the internal
-- operation confirmed and a release that the internal operation authorized, each with its time.
pub history-is_paid_unaudited :
    (events : List Event) (s : Session)
    → s.rows ≡ []
    → s.committed ≡ []
    → All (λ p. is_paid_unaudited p ≡ false) (history events s).rows
history-is_paid_unaudited events s r c =
    All-map IsAudited _ IsAudited-is_paid_unaudited (history events s).rows
      (history-IsClean (record { keep = λ p q. PaymentStep-is_audited }) events s
        (λ _. IsAudited-Creates) (empty-IsClean IsAudited s r c)).rows
