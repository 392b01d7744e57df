-- ===== src/Tests/Init.antt =====
-- Two models are running, and an `init` event names another one only.
use model_runner_client.Base.{◌≡◌, ◌≤◌, ◌↔◌, refl, true, false, none, some, [], ◌∷◌, List}
use model_runner_client.Base.Int.{pos}
use model_runner_client.Base.Eq.{nat_equality, string_equality, option_equality}
use model_runner_client.Dict
use model_runner_client.Runner.{Key}
use model_runner_client.Runner.Init.{both_open, ready, set_up}
use model_runner_client.Cluster.{Task, remove_scheduled, finished}
use model_runner_client.Cluster.Coroutines.{Answer, go, resume, init_reply}
use model_runner_client.Cluster.World.{Event, turn, update, counts, step, run, new_world}
use model_runner_client.Cluster.Updates.{
  ModelUpdate, update_model_runs, data_model_ids, finish_init_event,
}
use model_runner_client.Cluster.Events.{run-IsValid, new_world-IsValid}
use model_runner_client.Cluster.Gathered.{init_event_leaves}
use model_runner_client.Cluster.Progress.{suits}
use model_runner_client.Cluster.Ends.{turns_taken, is_done, tasks_end}
use model_runner_client.Tests.Samples.{alpha, update_to, empty_world}

abbrev named : Key → ModelUpdate
named k = record (update_to "RUNNING") { model_id_field = some k }

abbrev running : List Event
running =
    update (named (some "m1") ∷ named (some "m3") ∷ [])
    ∷ turn 0 (go both_open)
    ∷ turn 1 (go both_open)
    ∷ turn 1 (init_reply ready)
    ∷ turn 0 (init_reply ready)
    ∷ turn 1 (init_reply ready)
    ∷ turn 0 (init_reply ready)
    ∷ turn 0 (init_reply (set_up true none))
    ∷ turn 1 (init_reply (set_up true none))
    ∷ []

models_are_running :
    let s = (run running empty_world).cluster in s.models_run ≡ (some "m1", 0) ∷ (some "m3", 1) ∷ []
unfolding run step new_world Dict.get update_model_runs resume Dict.put
models_are_running = refl

-- The two removals take their turns in turn, and a call counts a failure in between.
abbrev removing : List Event
removing =
    turn 1 (go both_open)
    ∷ turn 0 (go both_open)
    ∷ counts 0 1 0 (pos 0)
    ∷ turn 0 (go both_open)
    ∷ turn 1 (go both_open)
    ∷ []

abbrev removals : List Task
removals = remove_scheduled 0 ∷ remove_scheduled 1 ∷ []

init_event_leaves_example :
    let s = (run running empty_world).cluster in
    Dict.get
      (some "m1")
      (run removing (record { cluster = s; tasks = removals })).cluster.models_run
    ≡ none
unfolding run step new_world Dict.get update_model_runs resume Dict.put data_model_ids
    finish_init_event
init_event_leaves_example =
    init_event_leaves (named (some "m2") ∷ []) (run running empty_world).cluster (some "m2" ∷ [])
      removals removing (some "m1")
      (run-IsValid running empty_world (new_world-IsValid alpha true none none)).well_formed refl
      refl (tt, (tt, (tt, (tt, (tt, tt))))) (refl, (refl, tt))

tasks_end_example :
    (turns_taken 0 running empty_world ≤ 35)
    × ((is_done finished ≡ true) ↔ ((a : Answer) → suits finished a ≡ false))
unfolding run step new_world Dict.get update_model_runs resume Dict.put
tasks_end_example = tasks_end running alpha true none none 0 finished refl
