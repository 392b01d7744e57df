-- ===== src/Tests/Calls.antt =====
-- Runs of single calls, of series of calls, and of the collection of results.
use model_runner_client.Base.{ℕ, ◌≡◌, refl, true, false, none, some, [], ◌∷◌, String, arith}
use model_runner_client.Base.Eq.{nat_equality}
use model_runner_client.Dict
use model_runner_client.Dict.{Dict}
use model_runner_client.Runner.{
  ModelRunner, ErrorType, rpc_error, timeout_error, value_error, should_skip_for_timeout_reason,
  register_timeout,
}
use model_runner_client.Concurrent.{
  Ref, ModelPredictResult, MethodEnd, gives, raises, execute, health_check_threshold,
  process_failure, reconnect_model_runner, multiple_failed, multiple_timeout,
}
use model_runner_client.Concurrent.Penalties.{
  unhealthy_never_counts, execute_series, execute_all, timeouts_reported,
}
use model_runner_client.Concurrent.Failures.{failures_reported}
use model_runner_client.Concurrent.Results.{last_result}
use model_runner_client.Base.{map}
use model_runner_client.Runner.{auth_failure}
use model_runner_client.Concurrent.Whole.{
  Request, call_result, execute_concurrent_method, execute_concurrent_method_lem,
  execute_concurrent_method_raises,
}
use model_runner_client.Tests.Samples.{alpha, limits}

abbrev timed_out : MethodEnd String × ℕ
timed_out = (raises timeout_error "", 7)

abbrev undecodable : MethodEnd String × ℕ
undecodable = (raises value_error "", 7)

abbrev late : ModelRunner
late = record alpha { consecutive_timeouts = 2 }

timeouts_reported_example :
    let (r, actions) = execute_all limits 0 alpha (timed_out ∷ timed_out ∷ []) in
    (actions ≡ [])
    × ((execute {V = String} limits 0 r (raises rpc_error "") true 9).actions
        ≡ process_failure multiple_timeout none ∷ [])
timeouts_reported_example =
    timeouts_reported limits 0 alpha (timed_out ∷ timed_out ∷ []) (raises rpc_error "") 9
      (omega arith) refl (refl, (refl, tt)) refl refl

failures_reported_example :
    let (r, actions) = execute_all limits 0 alpha (undecodable ∷ undecodable ∷ []) in
    (actions ≡ [])
    × ((execute {V = String} limits 0 r (gives "" (some ErrorType.failed)) true 9).actions
        ≡ process_failure multiple_failed none ∷ [])
failures_reported_example =
    failures_reported limits 0 alpha (undecodable ∷ undecodable ∷ [])
      (gives "" (some ErrorType.failed)) 9 (omega arith) refl refl refl (refl, (refl, tt)) refl refl

unhealthy_never_counts_example :
    let (r, actions) =
      execute_series limits 0 false late (timed_out ∷ timed_out ∷ timed_out ∷ []) in
    (r.consecutive_timeouts ≡ 2)
    × (r.consecutive_failures ≡ 0)
    × (actions ≡ reconnect_model_runner ∷ reconnect_model_runner ∷ reconnect_model_runner ∷ [])
unfolding health_check_threshold
unhealthy_never_counts_example =
    unhealthy_never_counts limits 0 late (timed_out ∷ timed_out ∷ timed_out ∷ [])
      (refl, (refl, (refl, tt))) refl refl

abbrev answered : Request String
answered = record { model = 0; runner = alpha; method = gives "up" none; serving = true; time = 7 }

abbrev intruder : Request String
intruder = record answered { model = 1; method = raises auth_failure "no wallet" }

execute_concurrent_method_lem_example :
    (out : Dict Ref (ModelPredictResult String)) × (execute_concurrent_method limits (answered ∷ [])
      ≡ some out)
    × ((m : Ref) → Dict.get m out ≡ last_result m (map (call_result limits) (answered ∷ [])))
unfolding should_skip_for_timeout_reason
execute_concurrent_method_lem_example = execute_concurrent_method_lem limits (answered ∷ []) refl

execute_concurrent_method_raises_example :
    execute_concurrent_method limits (answered ∷ intruder ∷ []) ≡ none
unfolding should_skip_for_timeout_reason
execute_concurrent_method_raises_example =
    execute_concurrent_method_raises limits (answered ∷ intruder ∷ []) refl

-- Five calls of which each takes too long if it is made: all count as timeouts, and with a limit of
-- two the model is reported by each from the third on.
five_slow_calls :
    let slow = timed_out in
    let (r, actions) = execute_all limits 0 alpha (slow ∷ slow ∷ slow ∷ slow ∷ slow ∷ []) in
    (r.consecutive_timeouts ≡ 5)
    × (actions
        ≡ process_failure multiple_timeout none
          ∷ process_failure multiple_timeout none
          ∷ process_failure multiple_timeout none
          ∷ [])
unfolding execute_all execute health_check_threshold should_skip_for_timeout_reason register_timeout
five_slow_calls = (refl, refl)
