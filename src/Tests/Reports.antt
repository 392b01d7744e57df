-- ===== src/Tests/Reports.antt =====
-- A model has a bad implementation. The report is queued, since the connection is lost, and it is under way
-- when the client is connected again.
use mathlib.Core.List.{Perm}
use model_runner_client.Base.{◌≡◌, refl, false, true, none, some, [], ◌∷◌, ◌++◌, List}
use model_runner_client.Base.Eq.{nat_equality, string_equality, option_equality}
use model_runner_client.Dict
use model_runner_client.Runner.{bad_implementation}
use model_runner_client.Runner.Init.{both_open, ready, set_up}
use model_runner_client.Websocket.{closed, accepted}
use model_runner_client.Concurrent.{FailureCode}
use model_runner_client.Cluster.Coroutines.{go, init_reply, resume}
use model_runner_client.Cluster.Updates.{update_model_runs, finish_init_event}
use model_runner_client.Cluster.World
use model_runner_client.Cluster.World.{new_world}
use model_runner_client.Sync.{message}
use model_runner_client.Sync.Steps.{
  Sync, SyncEvent, listens, task_turn, connection_is, starts_init, starts_sync, attempt_is,
  receives, gathers, run_sync, sync_step, listener_step,
}
use model_runner_client.Sync.Refines.{at_rest}
use model_runner_client.Sync.Hands.{in_hand}
use model_runner_client.Sync.Reports.{reports_kept}
use model_runner_client.Tests.Samples.{alpha, update_to, empty_world}

abbrev failing : List SyncEvent
failing =
    listens starts_init
    ∷ listens (attempt_is accepted)
    ∷ listens (receives (message (some "init") (some (update_to "RUNNING" ∷ []))))
    ∷ task_turn 0 (go both_open)
    ∷ connection_is closed
    ∷ task_turn 0 (init_reply ready)
    ∷ task_turn 0 (init_reply ready)
    ∷ task_turn 0 (init_reply (set_up false (some bad_implementation)))
    ∷ task_turn 0 (go both_open)
    ∷ listens gathers
    ∷ listens gathers
    ∷ listens starts_sync
    ∷ listens (attempt_is accepted)
    ∷ []

abbrev failed_run : Sync
failed_run = run_sync failing (at_rest empty_world)

reports_kept_example :
    let c = failed_run.world.cluster.ws_client in
    Perm (in_hand failed_run.listener ++ (c.delivered ++ c.message_queue)) c.entrusted
reports_kept_example = reports_kept failing alpha true none none

report_is_in_hand :
    in_hand failed_run.listener
    ≡ record {
      model_id = some "m1";
      failure_code = FailureCode.bad_implementation;
      failure_reason = none;
      ip = some "10.0.0.1";
    }
      ∷ []
unfolding run_sync sync_step listener_step World.step new_world update_model_runs resume Dict.get
    Dict.put finish_init_event
report_is_in_hand = refl
