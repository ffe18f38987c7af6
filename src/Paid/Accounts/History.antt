-- ===== src/Paid/Accounts/History.antt =====
-- The accounts over any history.
use connextion_z_luna.Prelude.{String, ◌≡◌, List, [], ◌∷◌, All}
use connextion_z_luna.Paid.Database.{Database}
use connextion_z_luna.Paid.Calls.{Event, served, elsewhere, handle, history}
use connextion_z_luna.Paid.Steps.Calls.{serve-Step}
use connextion_z_luna.Paid.Accounts.{IsAccounted, IsBalanced}
use connextion_z_luna.Paid.Accounts.Steps.{Step-IsBalanced}

module _ (digest : String → String) where
  handle-IsBalanced : (e : Event) (s : Database) → IsBalanced s → IsBalanced (handle digest e s)
  unfolding handle
  handle-IsBalanced (served call) s h = Step-IsBalanced s _ (serve-Step digest call s) h
  handle-IsBalanced (elsewhere users profiles posts blocks mutes now new_id) s h = record {
    accounted = h.accounted;
    distinct = h.distinct;
    owned = h.owned;
  }

  pub history-IsBalanced :
      (events : List Event) (s : Database) → IsBalanced s → IsBalanced (history digest events s)
  unfolding history
  history-IsBalanced [] s h = h
  history-IsBalanced (e ∷ events) s h =
      history-IsBalanced events (handle digest e s) (handle-IsBalanced e s h)

-- From empty tables of campaigns and deliveries, after any sequence of served calls, interleaved
-- with any changes to users, profiles, posts, blocks and mutes, every campaign's counters are the
-- number of its impressions and the number of different viewers among them, and its row satisfies
-- every CHECK constraint: no budget, impression limit or reach limit is passed.
pub history-IsAccounted :
    (digest : String → String) (events : List Event) (s : Database)
    → s.campaigns ≡ []
    → s.deliveries ≡ []
    → All (IsAccounted (history digest events s).deliveries) (history digest events s).campaigns
history-IsAccounted digest events s c d = (history-IsBalanced digest events s empty).accounted
  where
    empty : IsBalanced s
    empty = record { accounted = rw c tt; distinct = rw d; owned = rw d tt }
