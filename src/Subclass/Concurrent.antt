-- ===== src/Subclass/Concurrent.antt =====
-- `call` of model_concurrent_runners/dynamic_subclass_model_concurrent_runner.py, down to the requests
-- that the runners send to their model nodes.
use model_runner_client.Base.{
  ℕ, ◌≡◌, refl, ◌∙◌, ap, Bool, false, Option, none, some, List, [], ◌∷◌, map, if◌then◌else◌, String,
}
use model_runner_client.Base.Eq.{◌==◌, nat_equality, string_equality}
use model_runner_client.Dict
use model_runner_client.Dict.{Dict}
use model_runner_client.Runner.{Channel, should_skip_for_timeout_reason}
use model_runner_client.Concurrent.{
  Ref, ModelPredictResult, of_success, of_failed, Config, CallEnd, completed, collect,
}
use model_runner_client.Concurrent.Results.{has_none, last_result, collect_lem}
use model_runner_client.Concurrent.Whole.{
  Request, gathered_call, gather_call, execute_concurrent_method,
}
use model_runner_client.Subclass
use model_runner_client.Subclass.{
  SubclassRunner, value, CallResponse, StubEnd, responds, Arguments, fixed, resolved, resolve,
  CallRequest,
}
use model_runner_client.Subclass.Factory.{with_default}
use model_runner_client.Subclass.Codes.{call_lem}

-- The arguments that `call` passes on: `none` is the sentinel, and a list that is given can be `None`.
unfoldable pub call_arguments :
    {A K : Type 0}
    → Option (Arguments A K)
    → Option (Option (List A))
    → Option (Option (List K))
    → Arguments A K
call_arguments none args kwargs =
    fixed (with_default (some []) args) (with_default (some []) kwargs)
call_arguments (some arguments) args kwargs = arguments

-- A model that is called: its runner, its model node, and what else the awaits give.
pub record Callee (A K W : Type 0) : Type 0 where
  pub model : Ref
  pub subclass_runner : SubclassRunner A K
  pub node : Channel → CallRequest A K → StubEnd W
  pub serving : Bool
  pub time : ℕ

-- A model that is not skipped, was set up, and whose node answers a request for the method with the
-- arguments by a response whose value decodes.
pub record Answer {A K : Type 0} (W : Type 0) (method_name : String) (arguments : Arguments A K)
    : Type 0 where
  pub callee : Callee A K W
  pub channel : Channel
  pub args : Option (List A)
  pub kwargs : Option (List K)
  pub response : CallResponse W
  pub result_value : W
  pub called : (should_skip_for_timeout_reason callee.subclass_runner.runner).1 ≡ false
  pub has_stub : callee.subclass_runner.grpc_stub ≡ some channel
  pub resolves : resolve callee.subclass_runner arguments ≡ resolved args kwargs
  pub answers :
      callee.node channel (record {
        method_name = method_name;
        method_arguments = args;
        method_kw_arguments = kwargs;
      })
      ≡ responds (some response)
  pub decodes : response.method_response ≡ value result_value

module _ {A K W : Type 0} where
  unfoldable pub call_request : String → Arguments A K → Callee A K W → Request (Option W)
  unfolding Subclass.call
  call_request method_name arguments x = record {
    model = x.model;
    runner = x.subclass_runner.runner;
    method = Subclass.call x.subclass_runner method_name arguments x.node;
    serving = x.serving;
    time = x.time;
  }

  -- `call`, for calls of different models that do not interfere.
  unfoldable pub concurrent_call :
      Config
      → String
      → Option (Arguments A K)
      → Option (Option (List A))
      → Option (Option (List K))
      → List (Callee A K W)
      → Option (Dict Ref (ModelPredictResult (Option W)))
  unfolding call_arguments call_request execute_concurrent_method
  concurrent_call c method_name arguments args kwargs xs =
      execute_concurrent_method c
        (map (call_request method_name (call_arguments arguments args kwargs)) xs)

  module _ {method_name : String} {arguments : Arguments A K} where
    -- The result that the code of the response stands for.
    abbrev pub result_of : Answer W method_name arguments → ModelPredictResult (Option W)
    result_of a =
        if a.response.code == "SUCCESS"
        then of_success a.callee.model (some a.result_value) a.callee.time
        else of_failed a.callee.model a.callee.time

    abbrev pub results_of : List (Answer W method_name arguments) → List (CallEnd (Option W))
    results_of bs = map (λ a. completed (some (result_of a))) bs

    results_of-has_none :
        (bs : List (Answer W method_name arguments)) → has_none (results_of bs) ≡ false
    results_of-has_none [] = refl
    results_of-has_none (a ∷ bs) = results_of-has_none bs

    gather_answer :
        (c : Config) (a : Answer W method_name arguments)
        → gather_call c (call_request method_name arguments a.callee)
          ≡ completed (some (result_of a))
    unfolding gather_call call_request gathered_call
    gather_answer c a =
        let x = a.callee in
        ap (gathered_call c)
          (call_lem c x.model x.subclass_runner x.subclass_runner.runner a.channel method_name
            arguments a.args a.kwargs x.node a.response a.result_value x.serving x.time a.called
            a.has_stub a.resolves a.answers a.decodes).0

    gather_answers :
        (c : Config) (bs : List (Answer W method_name arguments))
        → map (gather_call c) (map (call_request method_name arguments) (map (λ a. a.callee) bs))
          ≡ results_of bs
    gather_answers c [] = refl
    gather_answers c (a ∷ bs) = λ i. gather_answer c a i ∷ gather_answers c bs i

  -- If no model is skipped, all were set up, their arguments can be computed, and their nodes answer
  -- with values that decode, then a concurrent call returns for each model its last result, and
  -- nothing else: the value for the code SUCCESS, and FAILED for every other code.
  pub concurrent_call_lem :
      (c : Config) (method_name : String) (arguments : Option (Arguments A K))
      (args : Option (Option (List A))) (kwargs : Option (Option (List K)))
      (bs : List (Answer W method_name (call_arguments arguments args kwargs)))
      → (out : Dict Ref (ModelPredictResult (Option W))) × (concurrent_call c method_name arguments
            args kwargs
            (map (λ a. a.callee) bs)
          ≡ some out)
        × ((m : Ref) → Dict.get m out ≡ last_result m (results_of bs))
  unfolding concurrent_call execute_concurrent_method
  concurrent_call_lem c method_name arguments args kwargs bs =
      let (out, e, get) = collect_lem (results_of bs) (results_of-has_none bs) in
      (out, ap collect (gather_answers c bs) ∙ e, get)
