-- ===== src/Tests/Cluster.antt =====
-- Runs of the cluster: a model is started, stopped, and removed while its runner connects.
use model_runner_client.Base.{
  ◌<◌, ◌≡◌, ◌≢◌, refl, true, false, none, some, [], ◌∷◌, inr, is_some, List,
}
use model_runner_client.Dict
use model_runner_client.Runner.Init.{both_open}
use model_runner_client.Concurrent.{reconnect_model_runner}
use model_runner_client.Cluster.{Cluster, remove_scheduled, finished}
use model_runner_client.Cluster.Coroutines.{go, resume}
use model_runner_client.Cluster.World.{Event, turn, update, spawn, step, run, new_world}
use model_runner_client.Cluster.Updates.{update_model_runs}
use model_runner_client.Base.Eq.{nat_equality, string_equality, option_equality}
use model_runner_client.Cluster.Events.{models_indexed, run-IsValid, new_world-IsValid}
use model_runner_client.Cluster.Owned.{is_initialized, pending_owned}
use model_runner_client.Cluster.Finality.{removal_is_final}
use model_runner_client.Cluster.Returned.{removed_runner_returns, goes_well}
use model_runner_client.Tests.Samples.{
  alpha, secure_alpha, peer, update_to, empty_world, started, stopped,
}

pending_owned_example : is_initialized 0 (run started empty_world).tasks ≡ true
unfolding run step new_world Dict.get update_model_runs resume Dict.put
pending_owned_example = pending_owned started alpha true none none (some "m1") 0 refl

models_indexed_example :
    let s = (run started empty_world).cluster in (0 < s.next) × ((s.heap 0).model_id ≡ some "m1")
unfolding run step new_world Dict.get update_model_runs resume Dict.put
models_indexed_example = models_indexed started alpha true none none (some "m1") 0 (inr refl)

-- After the removal the model is named again, and another runner is created for it.
abbrev restart : List Event
restart =
    update (update_to "RUNNING" ∷ []) ∷ turn 2 (go both_open) ∷ spawn 0 reconnect_model_runner ∷ []

removal_is_final_example :
    let s = (run restart (step (turn 1 (go both_open)) (run stopped empty_world))).cluster in
    (Dict.get (some "m1") s.models_run ≢ some 0)
    × (Dict.get (some "m1") s.pending_model_runs ≢ some 0)
unfolding run step new_world Dict.get update_model_runs resume Dict.put
removal_is_final_example =
    removal_is_final (run stopped empty_world) 1 0 both_open restart (some "m1")
      (run-IsValid stopped empty_world (new_world-IsValid alpha true none none)) refl
      (refl, (refl, tt))

-- A cluster in which the runner is pending and its task is in the TLS probe.
abbrev probing_cluster : Cluster
probing_cluster = record (empty_world.cluster) {
  heap = λ r. secure_alpha;
  next = 1;
  pending_model_runs = (some "m1", 0) ∷ [];
}

removed_runner_returns_example :
    let (s1, t1) = resume (remove_scheduled 0) (go both_open) probing_cluster in
    let (s2, t2) = resume t1 (go both_open) s1 in
    let (s3, t3) = goes_well peer 0 false s2 in
    (t2 ≡ finished)
    × (Dict.get (some "m1") s2.pending_model_runs ≢ some 0)
    × (t3 ≡ finished)
    × (Dict.get (some "m1") s3.models_run ≡ some 0)
    × ((s3.heap 0).closed ≡ true)
    × (is_some (s3.heap 0).grpc_channel ≡ true)
removed_runner_returns_example = removed_runner_returns probing_cluster 0 peer false refl refl
