-- ===== src/Tests/Subclass.antt =====
-- Runs of `setup` and `call` of a dynamic subclass runner.
use model_runner_client.Base.{◌≡◌, refl, true, none, some, List, [], ◌∷◌, String, Option}
use model_runner_client.Base.Eq.{string_equality, nat_equality}
use model_runner_client.Runner.{Channel, insecure_channel, should_skip_for_timeout_reason}
use model_runner_client.Runner.Init.{setting_up, init_resume}
use model_runner_client.Concurrent.{execute, finished, of_failed}
use model_runner_client.Subclass.{
  SubclassRunner, SetupRequest, SetupEnd, setup_responds, run_setup, value, CallResponse, StubEnd,
  responds, Arguments, computed, resolved, CallRequest, call,
}
use model_runner_client.Dict
use model_runner_client.Dict.{Dict}
use model_runner_client.Concurrent.{Ref, ModelPredictResult}
use model_runner_client.Concurrent.Results.{last_result}
use model_runner_client.Subclass.Concurrent.{
  call_arguments, Callee, Answer, concurrent_call, concurrent_call_lem, results_of,
}
use model_runner_client.Subclass.Codes.{setup_end, setup_lem, call_lem}
use model_runner_client.Tests.Samples.{alpha, limits}

abbrev channel : Channel
channel = insecure_channel (some "10.0.0.1") (some 50051)

abbrev subclass : SubclassRunner String String
subclass = record {
  base_classname = "birdgame.TrackerBase";
  instance_args = [];
  instance_kwargs = "seed" ∷ [];
  grpc_stub = none;
  runner = alpha;
}

abbrev set_up_subclass : SubclassRunner String String
set_up_subclass = record subclass { grpc_stub = some channel }

abbrev refusing : Channel → SetupRequest String String → SetupEnd
refusing ch request = setup_responds "BAD_IMPLEMENTATION"

setup_lem_example :
    ((run_setup subclass channel refusing).0 ≡ set_up_subclass)
    × (init_resume alpha (setting_up 1) (run_setup subclass channel refusing).1
        ≡ (alpha, setup_end "BAD_IMPLEMENTATION"))
setup_lem_example = setup_lem subclass alpha 1 channel refusing "BAD_IMPLEMENTATION" refl

abbrev response : CallResponse String
response = record { code = "FAILED"; message = ""; method_response = value "" }

abbrev node : Channel → CallRequest String String → StubEnd String
node ch request = responds (some response)

-- Arguments that are computed for each runner.
abbrev own_arguments : Arguments String String
own_arguments = computed (λ r. resolved (some (r.base_classname ∷ [])) none)

call_lem_example :
    let t = execute limits 0 alpha (call set_up_subclass "predict" own_arguments node) true 7 in
    (t.call ≡ finished (some (of_failed {V = Option String} 0 7)))
    × (t.runner.consecutive_failures ≡ 1)
    × (t.actions ≡ [])
unfolding should_skip_for_timeout_reason
call_lem_example =
    call_lem limits 0 set_up_subclass alpha channel "predict" own_arguments
      (some ("birdgame.TrackerBase" ∷ [])) none node response "" true 7 refl refl refl refl refl

-- A node that predicts, and one that fails.
abbrev predicting : Channel → CallRequest String String → StubEnd String
predicting ch request =
    responds (some (record { code = "SUCCESS"; message = ""; method_response = value "up" }))

abbrev callee_of :
    Ref → (Channel → CallRequest String String → StubEnd String) → Callee String String String
callee_of m n = record {
  model = m;
  subclass_runner = set_up_subclass;
  node = n;
  serving = true;
  time = 7;
}

abbrev Now : Type 0
Now =
    Answer {A = String} {K = String} String "predict"
      (call_arguments none (some (some ("now" ∷ []))) none)

abbrev answered :
    Ref
    → (n : Channel → CallRequest String String → StubEnd String) → (r : CallResponse String)
    → (w : String)
    → (n channel (record {
      method_name = "predict";
      method_arguments = some ("now" ∷ []);
      method_kw_arguments = some [];
    })
        ≡ responds (some r))
    → r.method_response ≡ value w
    → Now
answered m n r w e d = record {
  callee = callee_of m n;
  channel = channel;
  args = some ("now" ∷ []);
  kwargs = some [];
  response = r;
  result_value = w;
  called = unfold should_skip_for_timeout_reason in refl;
  has_stub = refl;
  resolves = unfold call_arguments in refl;
  answers = e;
  decodes = d;
}

abbrev both_answered : List Now
both_answered =
    answered 0 predicting (record { code = "SUCCESS"; message = ""; method_response = value "up" })
      "up" refl refl
    ∷ answered 1 node response "" refl refl
    ∷ []

-- The deprecated `args` alone.
concurrent_call_lem_example :
    (out : Dict Ref (ModelPredictResult (Option String))) × (concurrent_call limits "predict" none
        (some (some ("now" ∷ [])))
        none
        (callee_of 0 predicting ∷ callee_of 1 node ∷ [])
      ≡ some out)
    × ((m : Ref) → Dict.get m out ≡ last_result m (results_of both_answered))
concurrent_call_lem_example =
    concurrent_call_lem limits "predict" none (some (some ("now" ∷ []))) none both_answered
