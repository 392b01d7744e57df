-- ===== src/Tests/Follows.antt =====
-- A model joins an empty cluster, and leaves it again.
use model_runner_client.Base.{◌≡◌, ◌≢◌, refl, true, false, none, some, [], ◌∷◌, List, inl, inr}
use model_runner_client.Base.Eq.{nat_equality, string_equality, option_equality}
use model_runner_client.Dict
use model_runner_client.Runner.Init.{both_open, ready, set_up, main_ready}
use model_runner_client.Cluster.{
  Cluster, add_scheduled, remove_scheduled, initializing, finished, find_model,
}
use model_runner_client.Cluster.Coroutines.{go, resume, init_reply}
use model_runner_client.Cluster.World.{Event, turn, update, step, run, new_world}
use model_runner_client.Cluster.Updates.{update_model_runs, match_model}
use model_runner_client.Cluster.Removed.{finish}
use model_runner_client.Cluster.Smooth.{with_channels, connects}
use model_runner_client.Cluster.Follows.{runner_of, model_joins, model_leaves}
use model_runner_client.Tests.Samples.{update_to, empty_world}

model_joins_example :
    let (s1, ts) = update_model_runs (update_to "RUNNING" ∷ []) empty_world.cluster in
    let (s2, t2) = resume (add_scheduled 0) (go both_open) s1 in
    let (s3, t3) = connects 0 false s2 in
    (ts ≡ some (add_scheduled 0 ∷ []))
    × (t2 ≡ initializing 0 (main_ready 1) false)
    × (Dict.get (some "m1") s2.pending_model_runs ≡ some 0)
    × (t3 ≡ finished)
    × (Dict.get (some "m1") s3.models_run ≡ some 0)
    × (Dict.get (some "m1") s3.pending_model_runs ≡ none)
    × (s3.heap 0 ≡ with_channels (runner_of (update_to "RUNNING")))
unfolding find_model Dict.get new_world
model_joins_example = model_joins (update_to "RUNNING") empty_world.cluster refl refl refl refl

abbrev joined : List Event
joined =
    update (update_to "RUNNING" ∷ [])
    ∷ turn 0 (go both_open)
    ∷ turn 0 (init_reply ready)
    ∷ turn 0 (init_reply ready)
    ∷ turn 0 (init_reply (set_up true none))
    ∷ []

abbrev with_model : Cluster
with_model = (run joined empty_world).cluster

model_leaves_example :
    let t = finish (remove_scheduled 0) with_model in
    (update_model_runs (update_to "RECOVERING" ∷ []) with_model
      ≡ (with_model, some (remove_scheduled 0 ∷ [])))
    × ((t.heap 0).closed ≡ true)
    × (Dict.get (some "m1") t.models_run ≢ some 0)
    × (Dict.get (some "m1") t.pending_model_runs ≢ some 0)
unfolding run step new_world Dict.get update_model_runs resume Dict.put match_model find_model
model_leaves_example =
    model_leaves (update_to "RECOVERING") with_model (some "m1") 0 (inr refl) refl (inl refl) refl
