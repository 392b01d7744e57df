-- ===== src/Concurrent/Failures.antt =====
-- Failing calls of model_concurrent_runner.py: how they are counted and reported, and the verdict on
-- every call.
use model_runner_client.Base.{
  ℕ, ◌+◌, ◌≤◌, ◌<◌, ◌≡◌, refl, Bool, true, false, Option, none, some, List, [], ◌∷◌, arith,
  if◌then◌else◌, length,
}
use model_runner_client.Runner.{
  ModelRunner, ErrorType, rpc_error, timeout_error, auth_failure, value_error,
  should_skip_for_timeout_reason, register_failure,
}
use model_runner_client.Runner.Cooldown.{IsArmed}
use model_runner_client.Concurrent.{
  Ref, ModelPredictResult, of_success, of_failed, of_timeout, Config, process_failure,
  multiple_failed, MethodEnd, gives, raises, finished, exceeds, execute,
}
use model_runner_client.Concurrent.Penalties.{execute_all, AllEnds}

module _ {V : Type 0} (c : Config) (m : Ref) where
  -- The ends that count as a failure.
  abbrev pub is_failure : MethodEnd V → Bool
  is_failure (gives v (some ErrorType.bad_implementation)) = false
  is_failure (gives v (some e)) = true
  is_failure (raises value_error s) = true
  is_failure _ = false

  -- A failing call of a model without timeouts.
  execute_failure :
      (r : ModelRunner) (e : MethodEnd V) (time : ℕ)
      → is_failure e ≡ true
      → IsArmed r
      → r.consecutive_timeouts ≡ 0
      → let t = execute c m r e true time in
        IsArmed t.runner
        × (t.runner.consecutive_timeouts ≡ 0)
        × (t.runner.consecutive_failures ≡ r.consecutive_failures + 1)
        × (t.actions ≡ (
            if exceeds c.max_consecutive_failures (r.consecutive_failures + 1)
            then process_failure multiple_failed none ∷ []
            else []))
  unfolding execute register_failure
  execute_failure r (gives v (some ErrorType.failed)) time h a z = ground arith
  execute_failure r (raises value_error s) time h a z = ground arith
  execute_failure r _ time h a z = ground arith

  failures_counted :
      (r : ModelRunner) (es : List (MethodEnd V × ℕ))
      → AllEnds c m is_failure es
      → IsArmed r
      → r.consecutive_timeouts ≡ 0
      → r.consecutive_failures + length es ≤ c.max_consecutive_failures
      → IsArmed (execute_all c m r es).0
        × ((execute_all c m r es).0.consecutive_timeouts ≡ 0)
        × ((execute_all c m r es).0.consecutive_failures ≡ r.consecutive_failures + length es)
        × ((execute_all c m r es).1 ≡ [])
  unfolding execute_all
  failures_counted r [] a i z l = (i, z, omega arith, refl)
  failures_counted r ((e, time) ∷ es) a i z l =
      let t = execute c m r e true time in
      ground (arith, execute_failure r e time a.0 i z, failures_counted t.runner es a.1)

  -- With a limit of `n > 0` failures in a row, a model without timeouts, failures and cooldown is not reported for
  -- its first `n` failing calls, and it is reported with the next one.
  pub failures_reported :
      (r : ModelRunner) (es : List (MethodEnd V × ℕ)) (e : MethodEnd V) (time : ℕ)
      → 0 < c.max_consecutive_failures
      → IsArmed r
      → r.consecutive_timeouts ≡ 0
      → r.consecutive_failures ≡ 0
      → AllEnds c m is_failure es
      → length es ≡ c.max_consecutive_failures
      → is_failure e ≡ true
      → let (r', actions) = execute_all c m r es in
        (actions ≡ [])
        × ((execute c m r' e true time).actions ≡ process_failure multiple_failed none ∷ [])
  failures_reported r es e time p i z f a l h =
      let r' = (execute_all c m r es).0 in
      ground (arith, failures_counted r es a i z, execute_failure r' e time h)

  -- What a call comes to, from the end of its method alone.
  abbrev pub verdict : MethodEnd V → ℕ → Option (ModelPredictResult V)
  verdict (gives v none) time = some (of_success m v time)
  verdict (gives v (some e)) time = some (of_failed m time)
  verdict (raises timeout_error s) time = some (of_timeout m time)
  verdict (raises rpc_error s) time = some (of_timeout m time)
  verdict (raises auth_failure s) time = none
  verdict (raises e s) time = some (of_failed m time)

  -- A call ends with TIMEOUT if it is skipped, and otherwise with the verdict on its method. The
  -- health check has no part in it.
  pub execute-verdict :
      (r : ModelRunner) (e : MethodEnd V) (serving : Bool) (time : ℕ)
      → (execute c m r e serving time).call
        ≡ finished (
            if (should_skip_for_timeout_reason r).1
            then some (of_timeout m time)
            else verdict e time)
  unfolding execute
  execute-verdict r (gives v none) serving time = ground arith
  execute-verdict r (gives v (some ErrorType.failed)) serving time = ground arith
  execute-verdict r (gives v (some e)) serving time = ground arith
  execute-verdict r (raises timeout_error s) serving time = ground arith
  execute-verdict r (raises _ s) serving time = ground arith
