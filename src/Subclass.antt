-- ===== src/Subclass.antt =====
-- model_runner_client/model_runners/dynamic_subclass_model_runner.py: the requests that a runner sends
-- to its model node, and how the status codes of the responses become results, error types and
-- exceptions.
pub mod Factory
pub mod Codes
pub mod Concurrent
use model_runner_client.Base.{
  ℕ, Bool, true, false, ◌||◌, Option, none, some, List, [], if◌then◌else◌, String,
}
use model_runner_client.Base.Eq.{◌==◌, string_equality}
use model_runner_client.Credentials.{SecureCredentials, GatewayCredentials}
use model_runner_client.Runner.{
  ModelRunner, ErrorType, Exception, usage_error, Key, Infos, Channel, new_runner,
}
use model_runner_client.Runner.Init.{Reply, set_up, raised}
use model_runner_client.Concurrent.{MethodEnd, gives, raises}

-- The fields of `DynamicSubclassModelRunner`. `A` and `K` are `Argument` and `KwArgument`; the stub is
-- named by the channel that it was made with.
pub record SubclassRunner (A K : Type 0) : Type 0 where
  pub base_classname : String
  pub instance_args : List A
  pub instance_kwargs : List K
  pub grpc_stub : Option Channel
  pub runner : ModelRunner

pub record SetupRequest (A K : Type 0) : Type 0 where
  pub class_name : String
  pub instance_arguments : List A
  pub instance_kw_arguments : List K

-- How the remote call of `Setup` ends: the code of the response's status, or an exception.
pub data SetupEnd : Type 0 where
  setup_responds : String → SetupEnd
  setup_raises : Exception → SetupEnd

-- `setup`, from the status code of the response, as the answer that `init` gets.
unfoldable pub setup : String → Reply
setup status_code =
    if status_code == "SUCCESS"
    then set_up true none
    else if status_code == "INVALID_ARGUMENT"
    then raised usage_error
    else if status_code == "BAD_IMPLEMENTATION"
    then set_up false (some ErrorType.bad_implementation)
    else set_up false (some ErrorType.failed)

abbrev pub setup_reply : SetupEnd → Reply
setup_reply (setup_responds code) = setup code
setup_reply (setup_raises e) = raised e

module _ {A K : Type 0} where
  abbrev pub setup_request : SubclassRunner A K → SetupRequest A K
  setup_request r = record {
    class_name = r.base_classname;
    instance_arguments = r.instance_args;
    instance_kw_arguments = r.instance_kwargs;
  }

  -- The whole of `setup`, with what the model node answers.
  unfoldable pub run_setup :
      SubclassRunner A K
      → Channel
      → (Channel → SetupRequest A K → SetupEnd)
      → SubclassRunner A K × Reply
  unfolding setup
  run_setup r channel node =
      (record r { grpc_stub = some channel }, setup_reply (node channel (setup_request r)))

-- What `decode_data` does with the value of a response.
pub data Decoding (W : Type 0) : Type 0 where
  value : W → Decoding W
  decode_raises : Exception → String → Decoding W

-- A `CallResponse`: the code and the message of its status, and its value.
pub record CallResponse (W : Type 0) : Type 0 where
  pub code : String
  pub message : String
  pub method_response : Decoding W

-- How the remote procedure call ends. `responds none` is a `None` in place of a response.
pub data StubEnd (W : Type 0) : Type 0 where
  responds : Option (CallResponse W) → StubEnd W
  stub_raises : Exception → String → StubEnd W

module _ {W : Type 0} where
  decoded_end : Decoding W → MethodEnd (Option W)
  decoded_end (value w) = gives (some w) none
  decoded_end (decode_raises e s) = raises e s

  response_end : CallResponse W → MethodEnd (Option W)
  unfolding decoded_end
  response_end r =
      if r.code == "SUCCESS"
      then decoded_end r.method_response
      else if r.code == "INVALID_ARGUMENT" || r.code == "FAILED_PRECONDITION"
      then raises usage_error r.message
      else if r.code == "BAD_IMPLEMENTATION"
      then gives none (some ErrorType.bad_implementation)
      else gives none (some ErrorType.failed)

  stub_end : StubEnd W → MethodEnd (Option W)
  unfolding response_end
  stub_end (responds none) = gives none (some ErrorType.failed)
  stub_end (responds (some r)) = response_end r
  stub_end (stub_raises e s) = raises e s

-- The arguments of a call as given, or computed for the runner that is called.
pub data Resolved (A K : Type 0) : Type 0 where
  resolved : Option (List A) → Option (List K) → Resolved A K
  resolve_raises : Exception → String → Resolved A K

pub data Arguments (A K : Type 0) : Type 0 where
  fixed : Option (List A) → Option (List K) → Arguments A K
  computed : (SubclassRunner A K → Resolved A K) → Arguments A K

pub record CallRequest (A K : Type 0) : Type 0 where
  pub method_name : String
  pub method_arguments : Option (List A)
  pub method_kw_arguments : Option (List K)

module _ {A K : Type 0} where
  abbrev pub resolve : SubclassRunner A K → Arguments A K → Resolved A K
  resolve r (fixed args kwargs) = resolved args kwargs
  resolve r (computed f) = f r

module _ {A K W : Type 0} where
  -- The use of the stub, which `setup` has made.
  unfoldable pub send :
      Option Channel
      → CallRequest A K
      → (Channel → CallRequest A K → StubEnd W)
      → MethodEnd (Option W)
  unfolding stub_end
  send none request node =
      raises usage_error "gRPC stub is not initialized, please call setup() first."
  send (some channel) request node = stub_end (node channel request)

  unfoldable pub call_resolved :
      Option Channel
      → String
      → Resolved A K
      → (Channel → CallRequest A K → StubEnd W)
      → MethodEnd (Option W)
  unfolding send
  call_resolved stub method_name (resolve_raises e s) node = raises e s
  call_resolved stub method_name (resolved args kwargs) node =
      send stub
        (record {
          method_name = method_name;
          method_arguments = args;
          method_kw_arguments = kwargs;
        })
        node

  -- `call`, as the concurrent runner sees it, with what the model node answers.
  unfoldable pub call :
      SubclassRunner A K
      → String
      → Arguments A K
      → (Channel → CallRequest A K → StubEnd W)
      → MethodEnd (Option W)
  unfolding call_resolved
  call r method_name args node = call_resolved r.grpc_stub method_name (resolve r args) node
