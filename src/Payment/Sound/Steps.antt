-- ===== src/Payment/Sound/Steps.antt =====
-- The soundness of a row, step by step.
use connextion_z_luna.Prelude.{true, false, ◌≡◌, refl, arith, some, none, [], ◌∷◌}
use connextion_z_luna.Payment.Model.{
  CollaborationPayment, CollaborationPaymentState, state_in, authorized_held, refunded, disputed,
  release_pending,
}
use connextion_z_luna.Payment.Constraints.{
  check_constraints, party_constraints, hold_constraints, audit_constraints, dispute_constraints,
}
use connextion_z_luna.Payment.Audit.{dispute_operation, dispute_resolution_operation}
use connextion_z_luna.Payment.Hold.{set_hold, hold_transition}
use connextion_z_luna.Payment.Service.{plain, by_operation}
use connextion_z_luna.Payment.Steps.{
  PaymentStep, IsStepInvariant, dedicated, holding, moving, confirming, releasing, cancelling,
  refunding, disputing, cancelling_dispute, refunding_dispute, binding, confirm, authorize,
  mark_cancelled, mark_refunded, mark_disputed, mark_resolved,
}
use connextion_z_luna.Payment.Sound.{IsSound, exclusive}
use connextion_z_luna.Payment.Sound.Stamps.{
  valid-of-Allowed, stamp-party, stamp-hold, stamp-exclusive, stamp-audit, stamp-dispute,
  holding-hold, confirming-audit, releasing-audit, cancelling-audit, refunding-audit,
  disputing-dispute, resolving-dispute,
}

-- A target without a dedicated operation is neither of the three.
undedicated :
    (t : CollaborationPaymentState)
    → state_in t dedicated ≡ false
    → (state_in t (authorized_held ∷ []) ≡ false)
      × (state_in t (refunded ∷ []) ≡ false)
      × (state_in t (disputed ∷ []) ≡ false)
undedicated t u = ground arith

-- The new marks of a row touch no fact but the audits that the step itself completes.
PaymentStep-IsSound : {p q : CollaborationPayment} → PaymentStep p q → IsSound p → IsSound q
unfolding set_hold party_constraints hold_constraints dispute_constraints audit_constraints
    exclusive
PaymentStep-IsSound {p} (holding c q now fresh g) h = record {
  party = stamp-party now (hold_transition q) (set_hold q p) h.party;
  hold = holding-hold p c now q fresh h.hold;
  audit = stamp-audit now (some q.idempotency_key) none (set_hold q p) authorized_held refl h.audit;
  dispute =
      stamp-dispute now (some q.idempotency_key) none (set_hold q p) authorized_held refl h.dispute;
  excludes =
      stamp-exclusive now (some q.idempotency_key) none (set_hold q p) authorized_held
        (valid-of-Allowed c (set_hold q p) (hold_transition q) g) h.excludes;
}
PaymentStep-IsSound {p} (moving c t now u g) h =
    let valid = valid-of-Allowed c p (plain t) g in
    let (unheld, unrefunded, undisputed) = undedicated t u in
    record {
      party = stamp-party now (plain t) p h.party;
      hold = stamp-hold now none none p t valid unheld h.hold;
      audit = stamp-audit now none none p t unrefunded h.audit;
      dispute = stamp-dispute now none none p t undisputed h.dispute;
      excludes = stamp-exclusive now none none p t valid h.excludes;
    }
PaymentStep-IsSound {p} (confirming c now g) h =
    let t = CollaborationPaymentState.completed in
    let valid = valid-of-Allowed c (confirm p) (plain t) g in
    record {
      party = stamp-party now (plain t) (confirm p) h.party;
      hold = stamp-hold now none none (confirm p) t valid refl h.hold;
      audit = confirming-audit p c now h.audit;
      dispute = stamp-dispute now none none (confirm p) t refl h.dispute;
      excludes = stamp-exclusive now none none (confirm p) t valid h.excludes;
    }
PaymentStep-IsSound {p} (releasing c now g) h =
    let valid = valid-of-Allowed c (authorize p) (plain release_pending) g in
    record {
      party = stamp-party now (plain release_pending) (authorize p) h.party;
      hold = stamp-hold now none none (authorize p) release_pending valid refl h.hold;
      audit = releasing-audit p c now h.audit;
      dispute = stamp-dispute now none none (authorize p) release_pending refl h.dispute;
      excludes = stamp-exclusive now none none (authorize p) release_pending valid h.excludes;
    }
PaymentStep-IsSound {p} (cancelling c o now calm g) h =
    let t = CollaborationPaymentState.cancelled in
    let valid = valid-of-Allowed c (mark_cancelled o p) (by_operation t o) g in
    record {
      party = stamp-party now (by_operation t o) (mark_cancelled o p) h.party;
      hold = stamp-hold now none (some o) (mark_cancelled o p) t valid refl h.hold;
      audit = cancelling-audit p c now o h.audit;
      dispute = stamp-dispute now none (some o) (mark_cancelled o p) t refl h.dispute;
      excludes = stamp-exclusive now none (some o) (mark_cancelled o p) t valid h.excludes;
    }
PaymentStep-IsSound {p} (refunding c o now a calm g) h =
    let valid = valid-of-Allowed c (mark_refunded o p) (by_operation refunded o) g in
    record {
      party = stamp-party now (by_operation refunded o) (mark_refunded o p) h.party;
      hold = stamp-hold now none (some o) (mark_refunded o p) refunded valid refl h.hold;
      audit = refunding-audit p c now o h.audit;
      dispute = stamp-dispute now none (some o) (mark_refunded o p) refunded refl h.dispute;
      excludes = stamp-exclusive now none (some o) (mark_refunded o p) refunded valid h.excludes;
    }
PaymentStep-IsSound {p} (disputing c actor now g) h =
    let o = dispute_operation in
    let valid = valid-of-Allowed c (mark_disputed actor p) (by_operation disputed o) g in
    record {
      party = stamp-party now (by_operation disputed o) (mark_disputed actor p) h.party;
      hold = stamp-hold now none (some o) (mark_disputed actor p) disputed valid refl h.hold;
      audit = stamp-audit now none (some o) (mark_disputed actor p) disputed refl h.audit;
      dispute = disputing-dispute p c now actor h.dispute;
      excludes =
          stamp-exclusive now none (some o) (mark_disputed actor p) disputed valid h.excludes;
    }
PaymentStep-IsSound {p} (cancelling_dispute c now d a g) h =
    let t = CollaborationPaymentState.cancelled in
    let o = dispute_resolution_operation in
    let q = mark_cancelled o (mark_resolved p) in
    let valid = valid-of-Allowed c q (by_operation t o) g in
    record {
      party = stamp-party now (by_operation t o) q h.party;
      hold = stamp-hold now none (some o) q t valid refl h.hold;
      audit = cancelling-audit (mark_resolved p) c now o h.audit;
      dispute = resolving-dispute (mark_cancelled o p) c now t o refl d h.dispute;
      excludes = stamp-exclusive now none (some o) q t valid h.excludes;
    }
PaymentStep-IsSound {p} (refunding_dispute c o now d a g) h =
    let q = mark_resolved (mark_refunded o p) in
    let valid = valid-of-Allowed c q (by_operation refunded o) g in
    record {
      party = stamp-party now (by_operation refunded o) q h.party;
      hold = stamp-hold now none (some o) q refunded valid refl h.hold;
      audit = refunding-audit (mark_resolved p) c now o h.audit;
      dispute = resolving-dispute (mark_refunded o p) c now refunded o refl d h.dispute;
      excludes = stamp-exclusive now none (some o) q refunded valid h.excludes;
    }
PaymentStep-IsSound (binding provider reference unpaid) h = record {
  party = ground (arith, h.party);
  hold = h.hold;
  audit = h.audit;
  dispute = h.dispute;
  excludes = h.excludes;
}

pub IsSound-IsStepInvariant : IsStepInvariant IsSound
IsSound-IsStepInvariant = record { keep = λ p q. PaymentStep-IsSound }

-- Each change of a sound row that the steps of the service allow gives a row that satisfies every CHECK
-- constraint of the table.
pub PaymentStep-check_constraints :
    (p q : CollaborationPayment) → IsSound p → PaymentStep p q → check_constraints q ≡ true
unfolding check_constraints
PaymentStep-check_constraints p q sound step =
    let h = PaymentStep-IsSound step sound in rw (h.party, h.hold, h.audit, h.dispute)
