-- ===== src/Payment/History/Constrained.antt =====
-- The exclusion of the final states, over a history.
use connextion_z_luna.Prelude.{
  Bool, false, ◌≡◌, sym, subst, ◌&&◌, ◌||◌, List, [], ◌∷◌, All, is_some, arith,
}
use connextion_z_luna.Payment.Model.{CollaborationPayment}
use connextion_z_luna.Payment.Session.{Session}
use connextion_z_luna.Payment.Calls.{Event, history}
use connextion_z_luna.Payment.Rules.{IsClean}
use connextion_z_luna.Payment.Keeps.Calls.{history-IsClean}
use connextion_z_luna.Payment.Sound.{IsSound, exclusive}
use connextion_z_luna.Payment.Sound.Steps.{IsSound-IsStepInvariant}
use connextion_z_luna.Payment.Sound.Create.{IsSound-Creates}

pub All-map :
    (P Q : CollaborationPayment → Type 0)
    → ((p : CollaborationPayment) → P p → Q p)
    → (rows : List CollaborationPayment) → All P rows
    → All Q rows
All-map P Q f [] h = tt
All-map P Q f (x ∷ rows) h = (f x h.0, All-map P Q f rows h.1)

pub empty-IsClean :
    (P : CollaborationPayment → Type 0) (s : Session) → s.rows ≡ [] → s.committed ≡ [] → IsClean P s
empty-IsClean P s r c = record {
  rows = subst (All P) (sym r) tt;
  committed = subst (All P) (sym c) tt;
}

history-IsSound :
    (events : List Event) (s : Session) → IsClean IsSound s → All IsSound (history events s).rows
history-IsSound events s h =
    (history-IsClean IsSound-IsStepInvariant events s (λ _. IsSound-Creates) h).rows

-- A payment that was paid out, and cancelled, refunded or reversed as well.
abbrev pub is_paid_twice : CollaborationPayment → Bool
is_paid_twice p =
    (is_some p.released_at
      && (is_some p.cancelled_at || is_some p.refunded_at || is_some p.hold_reversed_at))
    || (is_some p.cancelled_at && is_some p.refunded_at)

IsSound-is_paid_twice : (p : CollaborationPayment) → IsSound p → is_paid_twice p ≡ false
unfolding exclusive
IsSound-is_paid_twice p h = let e = h.excludes in ground arith

-- From an empty table, no sequence of served calls, interleaved with any changes elsewhere, makes a
-- payment that was released and also cancelled, refunded or reversed, or that was both cancelled
-- and refunded.
pub history-is_paid_twice :
    (events : List Event) (s : Session)
    → s.rows ≡ []
    → s.committed ≡ []
    → All (λ p. is_paid_twice p ≡ false) (history events s).rows
history-is_paid_twice events s r c =
    All-map IsSound _ IsSound-is_paid_twice (history events s).rows
      (history-IsSound events s (empty-IsClean IsSound s r c))
