-- ===== src/Worker/Tests.antt =====
-- Runs of the dispatch worker, and its theorems at inputs that meet their hypotheses.
use baxi.Base.{
  ◌+◌, ℕ, ◌≤◌, ◌≡◌, refl, inl, Bool, true, false, Option, none, some, [], ◌∷◌, ◌++◌, String, ◌==◌,
  if◌then◌else◌, pos, ◌+ℤ◌, ok, err, arith, eq_iff, ◌≢◌,
}
use baxi.Action.Model.{ActionProposal, ExecutionResult, Executor, adapter, execute}
use baxi.Outbox.{
  OutboxEvent, Row, attempted, find_row, is_ready, mark_dispatched, mark_failed,
  update_max_attempts, set_next_retry_at, get_pending_events,
}
use baxi.Worker.{
  Env, World, mark_dispatched_in_tx, handle_failed, handle_max_attempts, handle_no_executor,
  default_dispatch_config,
}
use baxi.Worker.Backoff.{backoff_duration, capped_doubling}
use baxi.Worker.Loop.{conclude, dispatch_via, dispatch_event, dispatch_all, process_batch, run}
use baxi.Worker.Terminal.{run-final}
use baxi.Worker.Outcomes.{Sets, retried, dispatch_event-delivers}
use baxi.Worker.Failures.{raised, dispatch_event-retries, dispatch_event-no_executor}
use baxi.Worker.Exhausted.{exhausted-ready}
use baxi.Worker.DryRun.{dispatch_event-dry}

abbrev proposal : ActionProposal
proposal = record {
  proposal_id = "prop_1";
  case_id = "case_1";
  decision_id = "dec_1";
  action_type = "notify_owner";
  title = "";
  description = "";
  payload = none;
  risk_level = "low";
  requires_human_review = true;
  apply_status = "applied";
  created_at = pos 0;
  evidence_refs = [];
  context_hash = "";
  recipe_id = "";
}

abbrev sent : ExecutionResult
sent = record {
  success = true;
  dry_run = false;
  dispatch_payload = none;
  error = "";
  outbox_event_id = "msg_7";
}

-- A feishu adapter that delivers, a github adapter that fails, and no other channel.
abbrev feishu : Executor
feishu = adapter "*adapter.FeishuAdapter" (λ p dry. ok sent)

abbrev github : Executor
github = adapter "*adapter.GitHubAdapter" (λ p dry. err "rate limited")

abbrev executors : String → Option Executor
executors c = if c == "feishu" then some feishu else if c == "github" then some github else none

abbrev env : Env
env = record {
  config = default_dispatch_config;
  now = pos 1000;
  timestamp = "2026-05-26T22:09:18Z";
  driver = λ s. none;
  executors = executors;
  unmarshal = λ s. ok proposal;
  convert = λ n. 0;
  mkdir_ok = true;
  open_ok = true;
  write_ok = λ row. true;
}

abbrev dry_env : Env
dry_env = record env { config = record default_dispatch_config { dry_run = true } }

abbrev unlocked : String → Bool
unlocked id = false

abbrev event : String → String → ℕ → OutboxEvent
event id channel attempts = record {
  event_id = id;
  source_type = "action_execution";
  source_id = "prop_1";
  event_type = "notify_owner";
  status = "pending";
  payload = "{}";
  target_channel = channel;
  created_at = pos 5;
  dispatch_attempts = attempts;
  next_retry_at = none;
}

abbrev row : OutboxEvent → Row
row e = record { event = e; last_dispatch_at = none; error_message = none }

abbrev good : Row
good = row (event "a" "feishu" 0)

abbrev bad : Row
bad = row (event "b" "github" 1)

abbrev lost : Row
lost = row (event "c" "fax" 0)

abbrev spent : Row
spent = row (event "d" "feishu" 3)

abbrev over : Row
over = row (record (event "e" "feishu" 1) { status = "dispatched" })

abbrev world : World
world = record { table = good ∷ bad ∷ lost ∷ spent ∷ over ∷ []; audit_log = none; calls = [] }

batch_statuses :
    let t = (process_batch env unlocked world).table in
    (find_row "a" t ≡ some (attempted (pos 1000) "dispatched" good))
    × (find_row "b" t ≡ some (retried (pos 1000) (pos 120000001000) "rate limited" bad))
    × (find_row "e" t ≡ some over)
unfolding process_batch dispatch_all dispatch_event dispatch_via conclude get_pending_events
    mark_dispatched_in_tx handle_failed handle_max_attempts mark_dispatched mark_failed
    update_max_attempts set_next_retry_at backoff_duration execute handle_no_executor
batch_statuses = (refl, refl, refl)

batch_calls :
    (process_batch env unlocked world).calls
    ≡ record { event_id = "a"; dry_run = false } ∷ record { event_id = "b"; dry_run = false } ∷ []
unfolding process_batch dispatch_all dispatch_event dispatch_via conclude get_pending_events execute
batch_calls = refl

a_ne_b : ◌≢◌ {A = String} "b" "a"
a_ne_b = ground (arith, eq_iff "b" "a")

run-final_example :
    find_row "e" (run ((env, unlocked) ∷ (dry_env, unlocked) ∷ []) world).table ≡ some over
run-final_example =
    run-final ((env, unlocked) ∷ (dry_env, unlocked) ∷ []) world "e" over
      (refl, (refl, (refl, (refl, (refl, tt))))) refl (inl refl)

dispatch_event-delivers_example :
    let (d, w') = dispatch_event env good.event world in
    (d.status ≡ "dispatched")
    × (w'.calls ≡ [] ++ record { event_id = "a"; dry_run = false } ∷ [])
    × Sets "a"
        (record good {
          event = record (good.event) {
            status = "dispatched";
            dispatch_attempts = good.event.dispatch_attempts + 1;
          };
          last_dispatch_at = some (pos 1000);
        })
        world.table
        w'.table
unfolding execute
dispatch_event-delivers_example =
    dispatch_event-delivers env good.event world feishu proposal sent good (omega arith) refl refl
      refl refl refl (λ s. refl) refl

dispatch_event-retries_example :
    let (d, w') = dispatch_event env bad.event world in
    (d.status ≡ "failed")
    × (d.error ≡ "rate limited")
    × Sets "b"
        (retried (pos 1000) (pos 1000 +ℤ capped_doubling 2) "rate limited" bad)
        world.table
        w'.table
unfolding execute
dispatch_event-retries_example =
    dispatch_event-retries env bad.event world github "rate limited" bad (omega arith) (omega arith)
      refl (raised proposal refl refl) (λ s. refl) refl

dispatch_event-no_executor_example :
    let (d, w') = dispatch_event env lost.event world in
    (d.status ≡ "failed")
    × (w'.calls ≡ [])
    × Sets "c"
        (record lost {
          event = record (lost.event) {
            status = "failed";
            dispatch_attempts = lost.event.dispatch_attempts + 1;
          };
          last_dispatch_at = some (pos 1000);
          error_message = some "no executor for channel: fax";
        })
        world.table
        w'.table
dispatch_event-no_executor_example =
    dispatch_event-no_executor env lost.event world lost (omega arith) refl (λ s. refl) refl

exhausted-ready_example :
    (r' : Row) × (find_row "d" (dispatch_event env spent.event world).1.table ≡ some r')
    × (is_ready (pos 2000) unlocked r'.event ≡ true)
    × (3 ≤ r'.event.dispatch_attempts)
exhausted-ready_example = exhausted-ready env world spent (pos 2000) (omega arith) refl refl

abbrev stuck : World
stuck = record { table = spent ∷ []; audit_log = none; calls = [] }

dispatch_event-dry_example : (dispatch_event dry_env good.event world).1.table ≡ world.table
unfolding dispatch_event dispatch_via conclude execute
dispatch_event-dry_example = dispatch_event-dry dry_env good.event world refl refl
