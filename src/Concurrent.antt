-- ===== src/Concurrent.antt =====
-- model_runner_client/model_concurrent_runners/model_concurrent_runner.py: one call of a method on a
-- model, from one await to the next, with its penalties, its health check and the tasks that it
-- starts in the cluster; and the collection of the results of a concurrent call.
pub mod Penalties
pub mod Failures
pub mod Results
pub mod Whole
use model_runner_client.Base.{
  ℕ, zero, suc, ◌+◌, ◌/◌, ◌%◌, max, Bool, true, false, ◌&&◌, not, Option, none, some, List, [], ◌∷◌,
  ◌++◌, ltb, if◌then◌else◌, String, nat_beq,
}
use model_runner_client.Base.Eq.{nat_equality}
use model_runner_client.Dict
use model_runner_client.Dict.{Dict}
use model_runner_client.Runner.{
  ModelRunner, ErrorType, Key, Exception, rpc_error, timeout_error, usage_error, auth_failure,
  tls_probe_error, value_error, other_error, register_failure, register_timeout, reset_failures,
  reset_timeouts, should_skip_for_timeout_reason,
}

-- `ModelPredictResult.Status`
pub data Status : Type 0 where
  success failure timeout : Status

-- A reference to a `ModelRunner` object: its place on the heap.
abbrev pub Ref : Type 0
Ref = ℕ

pub record ModelPredictResult (V : Type 0) : Type 0 where
  pub model_runner : Ref
  pub result : Option V
  pub status : Status
  pub exec_time_us : ℕ

module _ {V : Type 0} where
  abbrev pub of_success : Ref → V → ℕ → ModelPredictResult V
  of_success m v t = record {
    model_runner = m;
    result = some v;
    status = success;
    exec_time_us = t;
  }

  abbrev pub of_failed : Ref → ℕ → ModelPredictResult V
  of_failed m t = record { model_runner = m; result = none; status = failure; exec_time_us = t }

  abbrev pub of_timeout : Ref → ℕ → ModelPredictResult V
  of_timeout m t = record { model_runner = m; result = none; status = timeout; exec_time_us = t }

-- The fields of `ModelConcurrentRunner` that a call reads.
pub record Config : Type 0 where
  pub timeout_s : ℕ
  pub max_consecutive_failures : ℕ
  pub max_consecutive_timeout : ℕ

-- `max(1, int(max_consecutive_timeout * 0.2))`
unfoldable pub health_check_threshold : Config → ℕ
health_check_threshold c = max 1 (c.max_consecutive_timeout / 5)

-- `timeout or self.timeout`
abbrev pub effective_timeout : Config → Option ℕ → ℕ
effective_timeout c none = c.timeout_s
effective_timeout c (some zero) = c.timeout_s
effective_timeout c (some (suc n)) = suc n

pub data FailureCode : Type 0 where
  bad_implementation multiple_failed multiple_timeout connection_failed : FailureCode

-- The coroutines of the cluster that a call starts by `asyncio.create_task`.
pub data Action : Type 0 where
  process_failure : FailureCode → Option String → Action
  reconnect_model_runner : Action

-- How `await method(...)` ends. An exception comes with its text.
pub data MethodEnd (V : Type 0) : Type 0 where
  gives : V → Option ErrorType → MethodEnd V
  raises : Exception → String → MethodEnd V

-- Where a call stands. `finished none` is a call that returned `None`.
pub data Call (V : Type 0) : Type 0 where
  awaiting_method : Call V
  awaiting_health : ℕ → Call V
  finished : Option (ModelPredictResult V) → Call V

pub record Turn (V : Type 0) : Type 0 where
  pub runner : ModelRunner
  pub actions : List Action
  pub call : Call V

-- `model.consecutive_timeouts > 0 and (model.consecutive_timeouts % threshold) == 0`
abbrev pub checks_health : Config → ModelRunner → Bool
checks_health c r =
    ltb 0 r.consecutive_timeouts && nat_beq (r.consecutive_timeouts % health_check_threshold c) 0

-- `limit and count > limit`
abbrev pub exceeds : ℕ → ℕ → Bool
exceeds limit count = ltb 0 limit && ltb limit count

module _ {V : Type 0} (c : Config) (m : Ref) where
  -- The rest of the timeout branch, from the answer of the health check.
  unfoldable pub conclude_timeout : ModelRunner → ℕ → Bool → Turn V
  conclude_timeout r time serving =
      let r' = if serving then register_timeout r else r in
      record {
        runner = r';
        actions =
            (if serving then [] else reconnect_model_runner ∷ [])
            ++ (if exceeds c.max_consecutive_timeout r'.consecutive_timeouts
                then process_failure multiple_timeout none ∷ []
                else []);
        call = finished (some (of_timeout m time));
      }

  -- `except (asyncio.TimeoutError, AioRpcError)`, up to the health check if there is one.
  unfoldable pub on_timeout : ModelRunner → ℕ → Turn V
  unfolding conclude_timeout
  on_timeout r time =
      if checks_health c r
      then record { runner = r; actions = []; call = awaiting_health time }
      else conclude_timeout r time true

  -- From the call to its first await. `found` says whether `getattr` finds the method.
  unfoldable pub call_start : ModelRunner → Bool → ℕ → Turn V
  unfolding on_timeout should_skip_for_timeout_reason
  call_start r found time =
      let (r', skip) = should_skip_for_timeout_reason r in
      if found
      then (if skip
          then on_timeout r' time
          else record { runner = r'; actions = []; call = awaiting_method })
      else record { runner = r; actions = []; call = finished (some (of_failed m time)) }

  -- The branch of an error that is not BAD_IMPLEMENTATION.
  unfoldable pub call_failed : ModelRunner → ℕ → Turn V
  call_failed r time =
      let r' = register_failure r in
      record {
        runner = r';
        actions =
            if exceeds c.max_consecutive_failures r'.consecutive_failures
            then process_failure multiple_failed none ∷ []
            else [];
        call = finished (some (of_failed m time));
      }

  -- From the end of the method to the end of the call, or to the health check.
  unfoldable pub method_end : ModelRunner → MethodEnd V → ℕ → Turn V
  unfolding call_failed on_timeout
  method_end r (gives v none) time = record {
    runner = reset_timeouts (reset_failures r);
    actions = [];
    call = finished (some (of_success m v time));
  }
  method_end r (gives v (some ErrorType.bad_implementation)) time = record {
    runner = r;
    actions = process_failure FailureCode.bad_implementation none ∷ [];
    call = finished (some (of_failed m time));
  }
  method_end r (gives v (some e)) time = call_failed r time
  method_end r (raises value_error s) time = call_failed r time
  method_end r (raises timeout_error s) time = on_timeout r time
  method_end r (raises rpc_error s) time = on_timeout r time
  method_end r (raises auth_failure s) time = record {
    runner = r;
    actions = process_failure connection_failed (some s) ∷ [];
    call = finished none;
  }
  method_end r (raises e s) time = record {
    runner = r;
    actions = [];
    call = finished (some (of_failed m time));
  }

  -- The rest of a call that nobody interferes with, from the end of the method, if it is called, and
  -- from the answer of the health check, if it is asked.
  after_health : Bool → Turn V → Turn V
  after_health serving t = elim t.call [
    | awaiting_health time ↦
        let u = conclude_timeout t.runner time serving in
        record u { actions = t.actions ++ u.actions }
    | other ↦ t
  ]

  after_method : MethodEnd V → ℕ → Turn V → Turn V
  after_method e time t = elim t.call [ awaiting_method ↦ method_end t.runner e time | other ↦ t ]

  unfoldable pub execute : ModelRunner → MethodEnd V → Bool → ℕ → Turn V
  unfolding call_start method_end after_health after_method
  execute r e serving time = after_health serving (after_method e time (call_start r true time))

-- What `asyncio.gather(..., return_exceptions=True)` holds for a call: what it returned, or an
-- exception that is no `Exception`, such as a cancellation.
pub data CallEnd (V : Type 0) : Type 0 where
  completed : Option (ModelPredictResult V) → CallEnd V
  cancelled : CallEnd V

-- `model_runs or self.model_cluster.models_run.values()`
unfoldable pub select_models : Option (List Ref) → Dict Key Ref → List Ref
select_models none models_run = Dict.values models_run
select_models (some []) models_run = Dict.values models_run
select_models (some (m ∷ ms)) models_run = m ∷ ms

module _ {V : Type 0} where
  -- The dictionary comprehension at the end of `_execute_concurrent_method`. `none` is the
  -- `AttributeError` of `None.model_runner`.
  collect_into :
      Dict Ref (ModelPredictResult V) → List (CallEnd V) → Option (Dict Ref (ModelPredictResult V))
  collect_into d [] = some d
  collect_into d (completed (some r) ∷ es) = collect_into (Dict.put r.model_runner r d) es
  collect_into d (completed none ∷ es) = none
  collect_into d (cancelled ∷ es) = collect_into d es

  unfoldable pub collect : List (CallEnd V) → Option (Dict Ref (ModelPredictResult V))
  unfolding collect_into
  collect es = collect_into [] es
