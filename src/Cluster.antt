-- ===== src/Cluster.antt =====
-- model_runner_client/model_cluster.py: the running and the pending models, and the coroutines that
-- change them. Runners are objects on a heap and are compared by identity. A coroutine runs from one
-- await to the next; a task is a coroutine at an await, or one that is scheduled. Any order of the
-- tasks' turns can be run, so whatever other coroutines do across an await is covered.
pub mod Coroutines
pub mod Updates
pub mod Rule
pub mod World
pub mod Frame
pub mod WellFormed
pub mod Settled
pub mod Turns
pub mod Loop
pub mod Events
pub mod Pending
pub mod Handover
pub mod Owned
pub mod Spares
pub mod Removal
pub mod Quiet
pub mod Finality
pub mod Returned
pub mod Smooth
pub mod Overtaken
pub mod Follows
pub mod Removed
pub mod InitEvent
pub mod AnyOrder
pub mod Gathered
pub mod Progress
pub mod Started
pub mod Ends
pub mod Reported
use model_runner_client.Base.{
  ℕ, zero, suc, ◌+◌, Bool, true, false, Option, none, some, List, [], ◌∷◌, if◌then◌else◌, or_else,
  String,
}
use model_runner_client.Base.Eq.{Equality, ◌==◌, nat_equality, string_equality, option_equality}
use model_runner_client.Dict
use model_runner_client.Dict.{Dict}
use model_runner_client.Credentials.{SecureCredentials, GatewayCredentials}
use model_runner_client.Runner.{
  ModelRunner, ErrorType, Exception, value_error, Key, Infos, new_runner, close,
}
use model_runner_client.Runner.Init.{
  InitPoint, Opens, Reply, InitState, waiting, returned, raises, init_start, init_resume,
}
use model_runner_client.Websocket.{
  WebsocketClient, SocketError, Sending, is_connected, enqueue, try_send,
}
use model_runner_client.Concurrent.{Ref, FailureCode, multiple_failed, connection_failed}

-- The `report_failure` message of `process_failure`.
pub record Report : Type 0 where
  pub model_id : Key
  pub failure_code : FailureCode
  pub failure_reason : Option String
  pub ip : Option String

-- The fields of `ModelCluster`, the objects that exist, and the credentials that its model factory
-- (`create_model_runner`) passes on. The objects created so far are the references below `next`.
pub record Cluster : Type 0 where
  pub heap : Ref → ModelRunner
  pub next : Ref
  pub models_run : Dict Key Ref
  pub pending_model_runs : Dict Key Ref
  pub ws_client : WebsocketClient Report
  pub report_failure : Bool
  pub secure_credentials : Option SecureCredentials
  pub gateway_credentials : Option GatewayCredentials

-- What the caller of `remove_model_runner` does after it. The Boolean says that an exception is
-- caught, as `reconnect_model_runner` does.
pub data After : Type 0 where
  stop : After
  then_add : Ref → Bool → After
  then_reconnect : Ref → After

pub data Task : Type 0 where
  -- scheduled coroutines
  add_scheduled : Ref → Task
  remove_scheduled : Ref → Task
  report_scheduled : Ref → FailureCode → Option String → Task
  reconnect_scheduled : Ref → Task
  -- at `await model_runner.close()` in `remove_model_runner`
  closing : Ref → After → Task
  -- at an await of `await model_runner.init()` in `add_model_runner`
  initializing : Ref → InitPoint → Bool → Task
  -- at `await self.websocket.send` for `process_failure`
  sending : Ref → Report → Bool → Task
  finished : Task
  failed : Exception → Task

-- Assignment to an object.
unfoldable pub store : Ref → ModelRunner → Cluster → Cluster
store r m s = record s { heap = λ q. if q == r then m else s.heap q }

-- A new object.
unfoldable pub allocate : ModelRunner → Cluster → Cluster × Ref
unfolding store
allocate m s = (record (store s.next m s) { next = suc s.next }, s.next)

-- `if d.get(key) is runner: del d[key]`
unfoldable pub drop_entry : Key → Ref → Dict Key Ref → Dict Key Ref
drop_entry k r d = if Dict.get k d == some r then Dict.delete k d else d

unfoldable pub drop_pending : Ref → Cluster → Cluster
unfolding drop_entry
drop_pending r s = record s {
  pending_model_runs = drop_entry (s.heap r).model_id r s.pending_model_runs;
}

-- `self.models_run.get(model_id) or self.pending_model_runs.get(model_id)`
unfoldable pub find_model : Key → Cluster → Option Ref
find_model k s = or_else (Dict.get k s.models_run) (Dict.get k s.pending_model_runs)

-- `remove_model_runner` up to its await.
unfoldable pub start_remove : Ref → After → Cluster → Cluster × Task
unfolding store close
start_remove r k s = (store r (close (s.heap r)) s, closing r k)

-- `remove_model_runner` after its await.
unfoldable pub remove_entries : Ref → Cluster → Cluster
unfolding drop_entry
remove_entries r s =
    let k = (s.heap r).model_id in
    record s {
      models_run = drop_entry k r s.models_run;
      pending_model_runs = drop_entry k r s.pending_model_runs;
    }

abbrev pub error_msg : ModelRunner → FailureCode → Option String → Report
error_msg m code reason = record {
  model_id = m.model_id;
  failure_code = code;
  failure_reason = reason;
  ip = m.ip;
}
