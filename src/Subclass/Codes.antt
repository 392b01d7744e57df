-- ===== src/Subclass/Codes.antt =====
-- What the status codes of dynamic_subclass_model_runner.py come to in the cluster and in a call.
use model_runner_client.Base.{
  Option, refl, sym, subst, ℕ, ◌+◌, ◌≡◌, Bool, true, false, ◌||◌, none, some, List, [], ◌∷◌, arith,
  if◌then◌else◌, String,
}
use model_runner_client.Base.Eq.{◌==◌, nat_equality, string_equality, option_equality}
use model_runner_client.Runner.{
  ModelRunner, Channel, ErrorType, usage_error, should_skip_for_timeout_reason, register_failure,
  reset_failures, reset_timeouts,
}
use model_runner_client.Runner.Init.{
  Reply, set_up, raised, InitState, waiting, returned, setting_up, init_resume,
}
use model_runner_client.Concurrent.{
  Ref, Config, MethodEnd, Action, FailureCode, process_failure, multiple_failed, finished, exceeds,
  execute, of_success, of_failed,
}
use model_runner_client.Runner.Init as Init
use model_runner_client.Subclass.{
  SubclassRunner, SetupRequest, SetupEnd, setup_responds, run_setup, setup, value, CallResponse,
  StubEnd, responds, response_end, stub_end, Arguments, resolved, resolve, CallRequest, send,
  call_resolved, call,
}

-- The end of `init` on a status code of `Setup`.
abbrev pub setup_end : String → InitState
setup_end code =
    if code == "SUCCESS"
    then returned true none
    else if code == "INVALID_ARGUMENT"
    then Init.raises usage_error
    else returned false (
        some
          (if code == "BAD_IMPLEMENTATION" then ErrorType.bad_implementation else ErrorType.failed))

-- `setup` asks the node at the end of the given channel for the runner's class with the runner's
-- arguments, and keeps a stub for that channel. A status code ends `init` at once, without another
-- attempt: SUCCESS with success, INVALID_ARGUMENT with the usage error, and any other code with an
-- error type.
pub setup_lem :
    {A K : Type 0} (r : SubclassRunner A K) (m : ModelRunner) (attempt : ℕ) (channel : Channel)
    (node : Channel → SetupRequest A K → SetupEnd) (code : String)
    → node channel (record {
      class_name = r.base_classname;
      instance_arguments = r.instance_args;
      instance_kw_arguments = r.instance_kwargs;
    })
      ≡ setup_responds code
    → let (r', x) = run_setup r channel node in
      (r' ≡ record r { grpc_stub = some channel })
      × (init_resume m (setting_up attempt) x ≡ (m, setup_end code))
unfolding run_setup setup init_resume
setup_lem r m attempt channel node code e = (refl, rw e (ground arith))

-- A usage error of the coordinator.
abbrev pub is_usage_code : String → Bool
is_usage_code code = code == "INVALID_ARGUMENT" || code == "FAILED_PRECONDITION"

-- The failures in a row after a call, by the status code of its response.
abbrev pub failures_after : String → ℕ → ℕ
failures_after code n =
    if code == "SUCCESS"
    then 0
    else if is_usage_code code || code == "BAD_IMPLEMENTATION"
    then n
    else n + 1

-- The tasks that the call starts.
abbrev pub actions_after : Config → String → ℕ → List Action
actions_after c code n =
    if code == "SUCCESS" || is_usage_code code
    then []
    else if code == "BAD_IMPLEMENTATION"
    then process_failure FailureCode.bad_implementation none ∷ []
    else if exceeds c.max_consecutive_failures (n + 1)
    then process_failure multiple_failed none ∷ []
    else []

call-sends :
    {A K W : Type 0} (q : SubclassRunner A K) (channel : Channel) (method : String)
    (arguments : Arguments A K) (args : Option (List A)) (kwargs : Option (List K))
    (node : Channel → CallRequest A K → StubEnd W) (response : CallResponse W)
    → q.grpc_stub ≡ some channel
    → resolve q arguments ≡ resolved args kwargs
    → node channel
        (record { method_name = method; method_arguments = args; method_kw_arguments = kwargs })
      ≡ responds (some response)
    → call q method arguments node ≡ response_end response
unfolding call call_resolved send stub_end
call-sends q channel method arguments args kwargs node response stub res e = rw (res, stub, e) refl

module _ {W : Type 0} (c : Config) (m : Ref) where
  -- What the end of a method does to a call.
  abbrev Answered : ModelRunner → CallResponse W → W → Bool → ℕ → MethodEnd (Option W) → Type 0
  Answered r response w serving time end =
      let t = execute c m r end serving time in
      (t.call
        ≡ finished (
            some (
              if response.code == "SUCCESS" then of_success m (some w) time else of_failed m time)))
      × (t.runner.consecutive_failures ≡ failures_after response.code r.consecutive_failures)
      × (t.actions ≡ actions_after c response.code r.consecutive_failures)

  response_end-Answered :
      (r : ModelRunner) (response : CallResponse W) (w : W) (serving : Bool) (time : ℕ)
      → (should_skip_for_timeout_reason r).1 ≡ false
      → response.method_response ≡ value w
      → Answered r response w serving time (response_end response)
  unfolding execute response_end register_failure reset_failures reset_timeouts
      should_skip_for_timeout_reason
  response_end-Answered r response w serving time skip decodes = ground arith

  -- A call that is made by a runner with a stub and whose arguments can be computed for that runner: it
  -- asks the node at the end of the stub's channel for the method with these arguments. If the value
  -- of the response decodes, SUCCESS gives the value and clears the failures, BAD_IMPLEMENTATION
  -- reports the model, a usage error of the coordinator counts against nobody, and any other code
  -- counts as one failure.
  pub call_lem :
      {A K : Type 0} (q : SubclassRunner A K) (r : ModelRunner) (channel : Channel)
      (method : String) (arguments : Arguments A K) (args : Option (List A))
      (kwargs : Option (List K)) (node : Channel → CallRequest A K → StubEnd W)
      (response : CallResponse W) (w : W) (serving : Bool) (time : ℕ)
      → (should_skip_for_timeout_reason r).1 ≡ false
      → q.grpc_stub ≡ some channel
      → resolve q arguments ≡ resolved args kwargs
      → node channel
          (record { method_name = method; method_arguments = args; method_kw_arguments = kwargs })
        ≡ responds (some response)
      → response.method_response ≡ value w
      → let t = execute c m r (call q method arguments node) serving time in
        (t.call
          ≡ finished (
              some (
                if response.code == "SUCCESS"
                then of_success m (some w) time
                else of_failed m time)))
        × (t.runner.consecutive_failures ≡ failures_after response.code r.consecutive_failures)
        × (t.actions ≡ actions_after c response.code r.consecutive_failures)
  call_lem q r channel method arguments args kwargs node response w serving time skip stub res e d =
      subst (Answered r response w serving time)
        (sym (call-sends q channel method arguments args kwargs node response stub res e))
        (response_end-Answered r response w serving time skip d)
