-- ===== src/Tests/Overtaken.antt =====
-- A model is reconnected while an event names it with a new address.
use model_runner_client.Base.{◌≡◌, refl, true, false, none, some, [], ◌∷◌, List, arith}
use model_runner_client.Base.Eq.{nat_equality, string_equality, option_equality}
use model_runner_client.Dict
use model_runner_client.Runner.Init.{both_open, ready, set_up, setting_up, main_ready}
use model_runner_client.Concurrent.{reconnect_model_runner}
use model_runner_client.Cluster.{Cluster, closing, then_add, initializing, finished}
use model_runner_client.Cluster.Coroutines.{go, resume, init_reply}
use model_runner_client.Cluster.World.{Event, turn, update, spawn, step, run, new_world}
use model_runner_client.Cluster.Updates.{ModelUpdate, update_model_runs}
use model_runner_client.Runner.{Channel, insecure_channel}
use model_runner_client.Cluster.Smooth.{connects}
use model_runner_client.Cluster.Overtaken.{overtaken_runner_leaks}
use model_runner_client.Tests.Samples.{update_to, empty_world}

abbrev moved : ModelUpdate
moved = record (update_to "RUNNING") { ip = some "10.0.0.2" }

abbrev moved_channel : Channel
moved_channel = insecure_channel (some "10.0.0.1") (some 50051)

abbrev reconnected : List Event
reconnected =
    update (update_to "RUNNING" ∷ [])
    ∷ turn 0 (go both_open)
    ∷ turn 0 (init_reply ready)
    ∷ turn 0 (init_reply ready)
    ∷ turn 0 (init_reply (set_up true none))
    ∷ update (moved ∷ [])
    ∷ spawn 0 reconnect_model_runner
    ∷ turn 1 (go both_open)
    ∷ turn 2 (go both_open)
    ∷ turn 2 (go both_open)
    ∷ turn 2 (init_reply ready)
    ∷ turn 2 (init_reply ready)
    ∷ []

abbrev overtaking : Cluster
overtaking = (run reconnected empty_world).cluster

two_additions :
    (run reconnected empty_world).tasks
    ≡ finished ∷ closing 0 (then_add 1 false) ∷ initializing 2 (setting_up 1) true ∷ []
unfolding run step new_world Dict.get update_model_runs resume Dict.put Dict.delete
two_additions = refl

overtaken_runner_leaks_example :
    let (s1, t1) = resume (closing 0 (then_add 1 false)) (go both_open) overtaking in
    let (s2, t2) = resume (initializing 2 (setting_up 1) true) (init_reply (set_up true none)) s1 in
    let (s3, t3) = connects 1 false s2 in
    (t1 ≡ initializing 1 (main_ready 1) false)
    × (t2 ≡ finished)
    × (Dict.get (some "m1") s2.models_run ≡ some 2)
    × (t3 ≡ finished)
    × (Dict.get (some "m1") s3.models_run ≡ some 1)
    × (Dict.get (some "m1") s3.pending_model_runs ≡ none)
    × (s3.heap 2 ≡ overtaking.heap 2)
    × ((s3.heap 2).closed ≡ false)
    × ((s3.heap 2).grpc_channel ≡ some moved_channel)
    × ((s3.heap 2).grpc_health_channel ≡ some moved_channel)
unfolding run step new_world Dict.get update_model_runs resume Dict.put Dict.delete
overtaken_runner_leaks_example =
    overtaken_runner_leaks (some "m1") overtaking 0 2 1 1 true false moved_channel moved_channel
      refl refl (omega arith) (refl, refl, refl) refl refl refl
