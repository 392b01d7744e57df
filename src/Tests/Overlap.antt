-- ===== src/Tests/Overlap.antt =====
-- A concurrent call of two models that interleaves with the removal of one of them.
use model_runner_client.Base.{
  ◌≡◌, ◌≤◌, ◌↔◌, ◌*◌, ◌+◌, length, is_some, refl, true, none, some, [], ◌∷◌, List, String,
}
use model_runner_client.Base.Eq.{nat_equality, string_equality, option_equality}
use model_runner_client.Dict.{Dict}
use model_runner_client.Runner.{timeout_error, should_skip_for_timeout_reason}
use model_runner_client.Runner.Init.{both_open}
use model_runner_client.Concurrent.{
  health_check_threshold, Ref, ModelPredictResult, gives, raises, conclude_timeout, call_start,
  select_models, method_end,
}
use model_runner_client.Cluster.Coroutines.{go, resume}
use model_runner_client.Cluster.World
use model_runner_client.Cluster.World.{turn, spawn, run}
use model_runner_client.Concurrent.{process_failure, multiple_failed}
use model_runner_client.Calls.{
  CallsEvent, begins, method_ends, call_turn, world_event, start_calls, stage_turn, calls_step,
  run_calls, outcome, new_concurrent_runner,
}
use model_runner_client.Calls.Progress.{taken, turns_left, calls_end}
use model_runner_client.Calls.Results.{AnswersFor, was_asked, calls_answer_selected}
use model_runner_client.Tests.Samples.{alpha, limits, empty_world}

-- Two runners exist.
abbrev two_runners : World.World
two_runners = record empty_world { cluster = record (empty_world.cluster) { next = 2 } }

abbrev overlap : List (CallsEvent String)
overlap =
    call_turn 0 (begins true 1)
    ∷ call_turn 1 (begins true 1)
    ∷ world_event (spawn 0 (process_failure multiple_failed none))
    ∷ call_turn 1 (method_ends (gives "answer" none) 5)
    ∷ world_event (turn 0 (go both_open))
    ∷ call_turn 0 (method_ends (raises timeout_error "late") 9)
    ∷ []

calls_answer_selected_example :
    (out : Dict Ref (ModelPredictResult String)) × (outcome
        (run_calls limits overlap (start_calls (some (0 ∷ 1 ∷ [])) two_runners))
      ≡ some (some out))
    × AnswersFor (was_asked (some (0 ∷ 1 ∷ [])) []) out
unfolding run_calls calls_step stage_turn call_start method_end start_calls conclude_timeout
    should_skip_for_timeout_reason World.new_world resume
calls_answer_selected_example =
    calls_answer_selected limits overlap (some (0 ∷ 1 ∷ [])) two_runners refl

calls_end_example :
    let s = run_calls limits overlap (start_calls (some (0 ∷ 1 ∷ [])) two_runners) in
    (taken limits overlap (start_calls (some (0 ∷ 1 ∷ [])) two_runners) + turns_left s.running
      ≤ 3 * length (select_models (some (0 ∷ 1 ∷ [])) two_runners.cluster.models_run))
    × ((turns_left s.running ≡ 0) ↔ (is_some (outcome s) ≡ true))
calls_end_example = calls_end limits overlap (some (0 ∷ 1 ∷ [])) two_runners

-- With the default limits the health of a model is checked from its first timeout on.
default_threshold :
    health_check_threshold (new_concurrent_runner alpha 10 none none none none none).config ≡ 1
unfolding health_check_threshold new_concurrent_runner
default_threshold = refl
