-- ===== src/Payment/Keeps/Create.antt =====
-- The creation of a row, and the read of one.
use connextion_z_luna.Prelude.{
  ℕ, ℤ, String, ◌≡◌, Bool, true, false, ◌==◌, ◌+◌, List, [], ◌∷◌, ◌++◌, All, if◌then◌else◌,
}
use connextion_z_luna.Errors.{Error, ok, err}
use connextion_z_luna.Payment.Model.{CollaborationPayment}
use connextion_z_luna.Payment.Session.{Session, create}
use connextion_z_luna.Payment.Audit.{validate_amount_and_currency}
use connextion_z_luna.Payment.Service.{
  new_payment, create_pending_payment, get_payment_for_collaboration,
}
use connextion_z_luna.Payment.Rules.{
  IsClean, Holds, Yields, Holds-pure, Holds-bind, Holds-skip, Holds-read, Holds-lift, Holds-guard,
}
use connextion_z_luna.Payment.Keeps.{validated, get_locked_relationship-Holds}

All-append :
    (P : CollaborationPayment → Type 0) (rows : List CollaborationPayment)
    (p : CollaborationPayment)
    → All P rows
    → P p
    → All P (rows ++ p ∷ [])
All-append P [] p h good = (good, tt)
All-append P (x ∷ rows) p h good = (h.0, All-append P rows p h.1 good)

module _ {P : CollaborationPayment → Type 0} where
  created :
      (b : Bool) (row : CollaborationPayment) (s : Session)
      → P row
      → IsClean P s
      → Yields P P (
          if b
          then (ok row, record s { rows = s.rows ++ row ∷ []; new_id = s.new_id + 1 })
          else (err Error.integrity_error, record s { rows = s.committed }))
  created true row s good h =
      (good, record { rows = All-append P s.rows row h.rows good; committed = h.committed })
  created false row s good h = record { committed = h.committed }

  -- A new row with `P` under every identifier leaves the session clean.
  create-Holds :
      (p : CollaborationPayment) → ((id : ℕ) → P (record p { id = id })) → Holds P (create p) P
  unfolding create
  create-Holds p good = record {
    at = λ s h. created _ (record p { id = s.new_id }) s (good s.new_id) h;
  }

  pub get_payment_for_collaboration-Holds :
      (id actor : ℕ) → Holds P (get_payment_for_collaboration id actor) P
  unfolding get_payment_for_collaboration
  get_payment_for_collaboration-Holds id actor =
      Holds-bind (get_locked_relationship-Holds id)
        λ found h. validated found.0 found.1 _ (Holds-skip _ _ λ _. Holds-pure found.1 h)

-- What a creation leaves has `P`.
abbrev pub Creates : (CollaborationPayment → Type 0) → Type 0
Creates P =
    (id actor recipient : ℕ) (amount : ℤ) (currency : String)
    → Holds P (create_pending_payment id actor recipient amount currency) P

-- It has what every validated new row has.
pub Creates-of :
    {P : CollaborationPayment → Type 0}
    → ((row id payer recipient : ℕ) (amount : ℤ) (currency : String)
        → validate_amount_and_currency amount currency ≡ ok tt
        → (recipient == payer) ≡ false
        → P (record (new_payment id payer recipient amount currency) { id = row }))
    → Creates P
unfolding create_pending_payment
Creates-of new id actor recipient amount currency = Holds-lift _ λ _ valid. Holds-read _ _ λ _.
    Holds-skip _ _ λ _. Holds-skip _ _ λ _. Holds-skip _ _ λ _. Holds-guard _ _ _ λ different.
      Holds-read _ _ λ _. Holds-skip _ _ λ _. Holds-read _ _ λ _.
        Holds-skip _ _
          λ _. create-Holds _ λ row. new row id actor recipient amount currency valid different
