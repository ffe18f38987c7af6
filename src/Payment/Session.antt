-- ===== src/Payment/Session.antt =====
-- backend/repositories/collaboration_payment_repository.py, over the rows that a session sees.
-- `committed` holds the payments as the database shows them to a transaction that starts anew: a
-- flush is tested against them too, and a rollback returns to them. Row locks are not modelled.
use connextion_z_luna.Prelude.{
  ℕ, String, Bool, false, not, ◌&&◌, ◌||◌, ◌==◌, Option, none, some, List, [], ◌∷◌, ◌++◌, map, ◌+◌,
  any, find, filter, is_text, if◌then◌else◌,
}
use connextion_z_luna.Errors.{Error, ok, err}
use connextion_z_luna.Exec.{Exec}
use connextion_z_luna.Payment.Model.{Collaboration, CollaborationParticipant, CollaborationPayment}
use connextion_z_luna.Payment.Constraints.{check_constraints}

pub record Session : Type 0 where
  pub rows : List CollaborationPayment
  pub committed : List CollaborationPayment
  pub collaborations : List Collaboration
  pub participants : List CollaborationParticipant
  pub now : ℕ
  pub new_id : ℕ

-- Two nullable texts under a UNIQUE constraint: null equals nothing.
abbrev same_text : Option String → Option String → Bool
same_text none b = false
same_text (some a) b = is_text b a

-- Two rows that a UNIQUE constraint forbids together.
unfoldable pub clashes : CollaborationPayment → CollaborationPayment → Bool
clashes p q =
    not (q.id == p.id)
    && (q.collaboration_id == p.collaboration_id
        || same_text p.hold_idempotency_key q.hold_idempotency_key
        || (same_text p.payment_provider q.payment_provider
            && same_text p.provider_reference q.provider_reference))

unfoldable pub get_collaboration : ℕ → Session → Option Collaboration
get_collaboration collaboration_id s =
    find (λ c. c.id == collaboration_id && not c.is_deleted) s.collaborations

unfoldable pub get_participant_user_ids : ℕ → Session → List ℕ
get_participant_user_ids collaboration_id s =
    map (λ m. m.user_id) (filter (λ m. m.collaboration_id == collaboration_id) s.participants)

unfoldable pub get_accepted_participant_user_ids : ℕ → Session → List ℕ
get_accepted_participant_user_ids collaboration_id s =
    map (λ m. m.user_id)
      (filter (λ m. m.collaboration_id == collaboration_id && m.is_accepted) s.participants)

unfoldable pub get_for_collaboration : ℕ → Session → Option CollaborationPayment
get_for_collaboration collaboration_id s = find (λ p. p.collaboration_id == collaboration_id) s.rows

unfoldable pub get_by_hold_idempotency_key : String → Session → Option CollaborationPayment
get_by_hold_idempotency_key key s = find (λ p. is_text p.hold_idempotency_key key) s.rows

unfoldable pub get_by_provider_reference : String → String → Session → Option CollaborationPayment
get_by_provider_reference provider reference s =
    find (λ p. is_text p.payment_provider provider && is_text p.provider_reference reference) s.rows

-- What the attribute writes on the object of a row leave in the session.
unfoldable pub replace :
    CollaborationPayment → List CollaborationPayment → List CollaborationPayment
replace p rows = map (λ q. if q.id == p.id then p else q) rows

unfoldable pub set_attributes : CollaborationPayment → Exec Session (Unit {0})
unfolding replace
set_attributes p s = (ok tt, record s { rows = replace p s.rows })

unfoldable pub rollback : Exec Session (Unit {0})
rollback s = (ok tt, record s { rows = s.committed })

unfoldable pub is_accepted_row : CollaborationPayment → Session → Bool
unfolding clashes check_constraints
is_accepted_row p s =
    check_constraints p && not (any (clashes p) s.rows) && not (any (clashes p) s.committed)

-- The flush writes the row, or is refused; a refusal rolls the transaction back.
unfoldable pub save : CollaborationPayment → Exec Session CollaborationPayment
unfolding is_accepted_row
save p s =
    if is_accepted_row p s
    then (ok p, s)
    else (err Error.integrity_error, record s { rows = s.committed })

-- The row takes the identifier that the generator gives.
unfoldable pub create : CollaborationPayment → Exec Session CollaborationPayment
unfolding is_accepted_row
create p s =
    let row = record p { id = s.new_id } in
    if is_accepted_row row s
      && not (any (λ q. q.id == s.new_id) s.rows)
      && not (any (λ q. q.id == s.new_id) s.committed)
    then (ok row, record s { rows = s.rows ++ row ∷ []; new_id = s.new_id + 1 })
    else (err Error.integrity_error, record s { rows = s.committed })
