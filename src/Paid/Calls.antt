-- ===== src/Paid/Calls.antt =====
-- The calls of the paid services, each in the transaction of a request: `get_db` of
-- backend/app/db/session.py commits after a return and rolls back after a raise.
use connextion_z_luna.Prelude.{ℕ, String, Option, List, [], ◌∷◌}
use connextion_z_luna.Errors.{Result, ok, err}
use connextion_z_luna.Exec.{Exec, pure, ◌>>=◌}
use connextion_z_luna.Paid.Model.{PaidCampaignStatus, User, Profile, Post}
use connextion_z_luna.Paid.Configuration.{CampaignConfiguration}
use connextion_z_luna.Paid.Database.{Database}
use connextion_z_luna.Paid.Campaigns.{create_campaign, get_campaign, update_campaign}
use connextion_z_luna.Paid.Delivery.{PaidCandidate, select_candidate, record_impression}
use connextion_z_luna.Paid.Contexts.{issue, consume}

-- A call with its arguments; the clock of the application comes with an update.
pub data Call : Type 0 where
  creating : User → ℕ → CampaignConfiguration → Call
  getting : User → ℕ → Call
  updating : User → ℕ → Option CampaignConfiguration → Option PaidCampaignStatus → ℕ → Call
  selecting : User → PaidCandidate → Call
  recording : User → ℕ → Call
  issuing : ℕ → ℕ → String → Call
  consuming : String → ℕ → ℕ → ℕ → Call

-- The call for its effect.
abbrev pub perform : {A : Type 0} → Exec Database A → Exec Database (Unit {0})
perform m = m >>= λ _. pure tt

-- The transaction: what a call leaves when it returns, and nothing of it when it raises.
abbrev pub settle : Database → Result (Unit {0}) × Database → Database
settle s (ok u, after) = after
settle s (err e, after) = s

-- A call, or a change that the rest of the program makes to users, profiles, posts, blocks and
-- mutes, and the time and the identifier to come.
pub data Event : Type 0 where
  served : Call → Event
  elsewhere : List User → List Profile → List Post → List (ℕ × ℕ) → List (ℕ × ℕ) → ℕ → ℕ → Event

module _ (digest : String → String) where
  unfoldable pub run : Call → Exec Database (Unit {0})
  run (Call.creating owner post_id configuration) =
      perform (create_campaign owner post_id configuration)
  run (Call.getting owner campaign_id) = perform (get_campaign owner campaign_id)
  run (Call.updating owner campaign_id configuration status moment) =
      perform (update_campaign owner campaign_id configuration status moment)
  run (Call.selecting viewer candidate) = perform (select_candidate viewer candidate)
  run (Call.recording viewer delivery_id) = perform (record_impression viewer delivery_id)
  run (Call.issuing viewer_id delivery_id token) =
      perform (issue digest viewer_id delivery_id token)
  run (Call.consuming token viewer_id post_id delivery_id) =
      consume digest token viewer_id post_id delivery_id

  unfoldable pub serve : Call → Database → Database
  unfolding run
  serve call s = settle s (run call s)

  unfoldable pub handle : Event → Database → Database
  unfolding serve
  handle (served call) s = serve call s
  handle (elsewhere users profiles posts blocks mutes now new_id) s = record s {
    users = users;
    profiles = profiles;
    posts = posts;
    blocks = blocks;
    mutes = mutes;
    now = now;
    new_id = new_id;
  }

  unfoldable pub history : List Event → Database → Database
  unfolding handle
  history [] s = s
  history (e ∷ events) s = history events (handle e s)
