-- ===== src/Paid/Steps/Calls.antt =====
-- Every call is a step.
use connextion_z_luna.Prelude.{String}
use connextion_z_luna.Errors.{Result, ok, err}
use connextion_z_luna.Exec.{Exec, pure, ◌>>=◌}
use connextion_z_luna.Exec.Ends.{Ends, Ends-bind, Ends-mono, returns}
use connextion_z_luna.Paid.Database.{Database}
use connextion_z_luna.Paid.Calls.{Call, run, serve, settle}
use connextion_z_luna.Paid.Steps.{Step, stay}
use connextion_z_luna.Paid.Steps.Campaigns.{
  create_campaign-Step, get_campaign-Step, update_campaign-Step,
}
use connextion_z_luna.Paid.Steps.Delivery.{select_candidate-Step, record_impression-Step}
use connextion_z_luna.Paid.Steps.Contexts.{issue-Step, consume-Step}

perform-Step :
    {A : Type 0} (m : Exec Database A) (s : Database)
    → Ends (λ a t. Step s t) (m s)
    → Ends (λ u t. Step s t) ((m >>= λ _. pure tt) s)
perform-Step m s h = Ends-bind m _ s (Ends-mono _ (m s) (λ a t step. returns tt t step) h)

module _ (digest : String → String) where
  run-Step : (call : Call) (s : Database) → Ends (λ u t. Step s t) (run digest call s)
  unfolding run
  run-Step (Call.creating owner post_id configuration) s =
      perform-Step _ s (create_campaign-Step owner post_id configuration s)
  run-Step (Call.getting owner campaign_id) s =
      perform-Step _ s (get_campaign-Step owner campaign_id s)
  run-Step (Call.updating owner campaign_id configuration status moment) s =
      perform-Step _ s (update_campaign-Step owner campaign_id s configuration status moment)
  run-Step (Call.selecting viewer candidate) s =
      perform-Step _ s (select_candidate-Step viewer candidate s)
  run-Step (Call.recording viewer delivery_id) s =
      perform-Step _ s (record_impression-Step viewer delivery_id s)
  run-Step (Call.issuing viewer_id delivery_id token) s =
      perform-Step _ s (issue-Step digest viewer_id delivery_id token s)
  run-Step (Call.consuming token viewer_id post_id delivery_id) s =
      consume-Step digest token viewer_id post_id delivery_id s

  settle-Step :
      (s : Database) (r : Result (Unit {0}) × Database)
      → Ends (λ u t. Step s t) r
      → Step s (settle s r)
  settle-Step s (ok u, t) h = h.at
  settle-Step s (err e, t) h = stay

  pub serve-Step : (call : Call) (s : Database) → Step s (serve digest call s)
  unfolding serve
  serve-Step call s = settle-Step s _ (run-Step call s)
