-- ===== src/Calls.antt =====
-- `_execute_concurrent_method` of model_runner_client/model_concurrent_runners/
-- model_concurrent_runner.py, with calls that take turns with each other, with those of other
-- concurrent calls and with the tasks of the cluster. All of them work on the same runner objects.
pub mod Tracks
pub mod Results
pub mod Progress
use model_runner_client.Base.{true, ℕ, Bool, Option, none, some, List, [], ◌∷◌, map, get_elem?, set}
use model_runner_client.Dict
use model_runner_client.Dict.{Dict}
use model_runner_client.Credentials.{SecureCredentials, GatewayCredentials}
use model_runner_client.Runner.{ModelRunner}
use model_runner_client.Subclass.Factory.{with_default}
use model_runner_client.Concurrent.{
  Ref, ModelPredictResult, Config, Action, MethodEnd, Call, awaiting_method, awaiting_health,
  finished, Turn, conclude_timeout, call_start, method_end, CallEnd, completed, select_models,
  collect,
}
use model_runner_client.Cluster.World
use model_runner_client.Cluster.World.{World, Event, spawn, counts, run}

-- A call of one model: a coroutine that `asyncio.gather` has scheduled, or one that has begun.
pub data Stage (V : Type 0) : Type 0 where
  scheduled : Stage V
  begun : Call V → Stage V

-- What a turn of a call gets: whether `getattr` finds the method, how the method ends, each with the
-- time since the start, or the answer of the health check.
pub data CallInput (V : Type 0) : Type 0 where
  begins : Bool → ℕ → CallInput V
  method_ends : MethodEnd V → ℕ → CallInput V
  health_answers : Bool → CallInput V

-- The cluster, and the calls of one concurrent call in the order of `tasks`.
pub record Calls (V : Type 0) : Type 0 where
  pub world : World
  pub running : List (Ref × Stage V)

pub data CallsEvent (V : Type 0) : Type 0 where
  -- the call at this place goes on
  call_turn : ℕ → CallInput V → CallsEvent V
  -- something else happens to the cluster and its runners
  world_event : Event → CallsEvent V

module _ {V : Type 0} where
  abbrev pub schedule : List Ref → List (Ref × Stage V)
  schedule [] = []
  schedule (m ∷ ms) = (m, scheduled) ∷ schedule ms

  -- `_execute_concurrent_method` up to `asyncio.gather`.
  unfoldable pub start_calls : Option (List Ref) → World → Calls V
  unfolding select_models
  start_calls model_runs w = record {
    world = w;
    running = schedule (select_models model_runs w.cluster.models_run);
  }

  -- The effects of a turn: the counters of the runner, and the tasks that it starts.
  abbrev pub effects : Ref → Turn V → List Event
  effects m t =
      counts m t.runner.consecutive_failures t.runner.consecutive_timeouts
        t.runner.cooldown_calls_remaining
      ∷ map (spawn m) t.actions

  module _ (c : Config) where
    -- From one await of a call to the next; `none` for an input that it cannot get.
    unfoldable pub stage_turn : Ref → Stage V → CallInput V → ModelRunner → Option (Turn V)
    unfolding call_start method_end conclude_timeout
    stage_turn m scheduled (begins found time) r = some (call_start c m r found time)
    stage_turn m (begun awaiting_method) (method_ends e time) r = some (method_end c m r e time)
    stage_turn m (begun (awaiting_health time)) (health_answers serving) r =
        some (conclude_timeout c m r time serving)
    stage_turn m _ _ r = none

    unfoldable pub apply_turn : ℕ → Ref → Option (Turn V) → Calls V → Calls V
    unfolding run
    apply_turn i m none s = s
    apply_turn i m (some t) s = record {
      world = run (effects m t) s.world;
      running = set s.running i (m, begun t.call);
    }

    unfoldable pub turn_at : ℕ → CallInput V → Option (Ref × Stage V) → Calls V → Calls V
    unfolding apply_turn stage_turn
    turn_at i x none s = s
    turn_at i x (some (m, st)) s = apply_turn i m (stage_turn m st x (s.world.cluster.heap m)) s

    unfoldable pub calls_step : CallsEvent V → Calls V → Calls V
    unfolding turn_at World.step
    calls_step (call_turn i x) s = turn_at i x (get_elem? s.running i) s
    calls_step (world_event e) s = record s { world = World.step e s.world }

    unfoldable pub run_calls : List (CallsEvent V) → Calls V → Calls V
    run_calls [] s = s
    run_calls (e ∷ es) s = run_calls es (calls_step e s)

  abbrev pub add_result :
      Option (ModelPredictResult V) → Option (List (CallEnd V)) → Option (List (CallEnd V))
  add_result r none = none
  add_result r (some es) = some (completed r ∷ es)

  -- What `asyncio.gather` returns; `none` while a call has not finished.
  unfoldable pub gather_results : List (Ref × Stage V) → Option (List (CallEnd V))
  gather_results [] = some []
  gather_results ((m, begun (finished r)) ∷ cs) = add_result r (gather_results cs)
  gather_results ((m, st) ∷ cs) = none

  unfoldable pub collect_gathered :
      Option (List (CallEnd V)) → Option (Option (Dict Ref (ModelPredictResult V)))
  unfolding collect
  collect_gathered none = none
  collect_gathered (some es) = some (collect es)

  -- The end of `_execute_concurrent_method`; the inner `none` is the `AttributeError`.
  unfoldable pub outcome : Calls V → Option (Option (Dict Ref (ModelPredictResult V)))
  unfolding collect_gathered
  outcome s = collect_gathered (gather_results s.running)

-- `ModelConcurrentRunner`: what its calls read, and its cluster.
pub record ConcurrentRunner : Type 0 where
  pub config : Config
  pub world : World

-- The constructor; `none` is a parameter that is left at its default. No runner exists, so what the
-- heap holds does not matter.
unfoldable pub new_concurrent_runner :
    ModelRunner
    → ℕ
    → Option ℕ
    → Option ℕ
    → Option SecureCredentials
    → Option GatewayCredentials
    → Option Bool
    → ConcurrentRunner
unfolding World.new_world
new_concurrent_runner blank timeout failures timeouts secure gateway report_failure = record {
  config = record {
    timeout_s = timeout;
    max_consecutive_failures = with_default 3 failures;
    max_consecutive_timeout = with_default 3 timeouts;
  };
  world = World.new_world blank (with_default true report_failure) secure gateway;
}
