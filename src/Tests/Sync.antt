-- ===== src/Tests/Sync.antt =====
-- A run of `ModelCluster.init`: the connection, the `init` message with one model, and its tasks.
use model_runner_client.Base.{
  ◌≡◌, ◌<◌, false, subst, arith, refl, true, none, some, [], ◌∷◌, ◌++◌, List,
}
use model_runner_client.Base.Eq.{nat_equality, string_equality, option_equality}
use model_runner_client.Dict
use model_runner_client.Runner.Init.{both_open, ready, set_up}
use model_runner_client.Websocket.{accepted, refused, connection_refused}
use model_runner_client.Cluster.Coroutines.{go, init_reply, resume}
use model_runner_client.Cluster.Updates.{update_model_runs, finish_init_event}
use model_runner_client.Cluster.World
use model_runner_client.Cluster.World.{new_world}
use model_runner_client.Sync.{message, stopped}
use model_runner_client.Sync.Steps.{
  Sync, SyncEvent, listens, task_turn, starts_init, attempt_is, wakes, receives, gathers, run_sync,
  sync_step, listener_step,
}
use model_runner_client.Sync.Spec.{events_in}
use model_runner_client.Sync.Refines.{Reaches, sync_refines}
use model_runner_client.Sync.Idle.{gathers_left}
use model_runner_client.Sync.Handled.{handling_ends}
use model_runner_client.Cluster.{finished}
use model_runner_client.Cluster.Progress.{suits}
use mathlib.Core.Option.{some-injective}
use model_runner_client.Tests.Samples.{alpha, update_to, empty_world}

abbrev unconnected : Sync
unconnected = record { world = empty_world; listener = stopped }

abbrev connection : List SyncEvent
connection =
    listens starts_init
    ∷ listens (attempt_is (refused connection_refused))
    ∷ listens wakes
    ∷ listens (attempt_is accepted)
    ∷ listens (receives (message (some "init") (some (update_to "RUNNING" ∷ []))))
    ∷ []

abbrev initialization : List SyncEvent
initialization =
    task_turn 0 (go both_open)
    ∷ listens gathers
    ∷ task_turn 0 (init_reply ready)
    ∷ task_turn 0 (init_reply ready)
    ∷ task_turn 0 (init_reply (set_up true none))
    ∷ listens gathers
    ∷ listens gathers
    ∷ []

sync_refines_example :
    Reaches
      (events_in (connection ++ initialization) none unconnected)
      empty_world
      (run_sync (connection ++ initialization) unconnected).world
sync_refines_example = sync_refines (connection ++ initialization) empty_world

-- The first `gathers` comes too early and changes nothing.
model_is_added :
    (Dict.get
        (some "m1")
        (run_sync initialization (run_sync connection unconnected)).world.cluster.models_run
      ≡ some 0)
    × ((run_sync initialization (run_sync connection unconnected)).listener ≡ stopped)
unfolding run_sync sync_step listener_step World.step new_world update_model_runs resume Dict.get
    Dict.put finish_init_event
model_is_added = (refl, refl)

-- The task of the model has finished, and the coroutine still waits for it.
abbrev finishing : List SyncEvent
finishing =
    task_turn 0 (go both_open)
    ∷ task_turn 0 (init_reply ready)
    ∷ task_turn 0 (init_reply ready)
    ∷ task_turn 0 (init_reply (set_up true none))
    ∷ []

handling_ends_example :
    let s = run_sync (connection ++ finishing) unconnected in
    gathers_left (sync_step (listens gathers) s).listener < 2
unfolding run_sync sync_step listener_step World.step new_world update_model_runs resume Dict.get
    Dict.put finish_init_event
handling_ends_example =
    handling_ends (connection ++ finishing) alpha true none none (omega arith)
      (λ t e a. subst (λ x. suits x a ≡ false) (some-injective finished t e) refl, tt)
