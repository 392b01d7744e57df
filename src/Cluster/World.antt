-- ===== src/Cluster/World.antt =====
-- The cluster of model_cluster.py together with its tasks, and the events that move it: a turn of a
-- task, an event from the orchestrator, a task that a concurrent call starts, and a change of the
-- connection to the orchestrator.
use model_runner_client.Base.Int.{ℤ}
use model_runner_client.Base.{
  ℕ, Bool, Option, none, some, List, [], ◌∷◌, ◌++◌, if◌then◌else◌, ltb, get_elem?, set,
}
use model_runner_client.Credentials.{SecureCredentials, GatewayCredentials}
use model_runner_client.Runner.{ModelRunner}
use model_runner_client.Websocket.{WebsocketClient, new_client}
use model_runner_client.Concurrent.{Ref, Action, process_failure, reconnect_model_runner}
use model_runner_client.Cluster.{
  Cluster, Report, store, Task, report_scheduled, reconnect_scheduled,
}
use model_runner_client.Cluster.Coroutines.{Answer, resume}
use model_runner_client.Cluster.Updates.{ModelUpdate, update_model_runs, finish_init_event}

pub record World : Type 0 where
  pub cluster : Cluster
  pub tasks : List Task

pub data Event : Type 0 where
  -- the task at this place goes on
  turn : ℕ → Answer → Event
  -- `handle_update_event`, or the first part of `handle_init_event`
  update : List ModelUpdate → Event
  -- the second part of `handle_init_event`
  init_end : List ModelUpdate → Event
  -- `asyncio.create_task` in a concurrent call
  spawn : Ref → Action → Event
  -- a coroutine of the WebSocket client connects, loses the connection, or sends queued messages:
  -- what the object is afterwards
  socket : WebsocketClient Report → Event
  -- a concurrent call writes the counters of a runner: failures, timeouts and cooldown
  counts : Ref → ℕ → ℕ → ℤ → Event

abbrev pub some_tasks : Option (List Task) → List Task
some_tasks none = []
some_tasks (some ts) = ts

unfoldable pub task_of : Ref → Action → Task
task_of r (process_failure code reason) = report_scheduled r code reason
task_of r reconnect_model_runner = reconnect_scheduled r

unfoldable pub turn_task : ℕ → Answer → Option Task → World → World
turn_task i a none w = w
turn_task i a (some t) w =
    let (s, t') = resume t a w.cluster in record { cluster = s; tasks = set w.tasks i t' }

abbrev pub set_counters : ℕ → ℕ → ℤ → ModelRunner → ModelRunner
set_counters failures timeouts cooldown m = record m {
  consecutive_failures = failures;
  consecutive_timeouts = timeouts;
  cooldown_calls_remaining = cooldown;
}

-- A task is started only for an object that exists.
unfoldable pub step : Event → World → World
unfolding turn_task task_of store
step (turn i a) w = turn_task i a (get_elem? w.tasks i) w
step (update us) w =
    let (s, ts) = update_model_runs us w.cluster in
    record { cluster = s; tasks = w.tasks ++ some_tasks ts }
step (init_end us) w = record w { tasks = w.tasks ++ some_tasks (finish_init_event us w.cluster) }
step (spawn r action) w =
    if ltb r w.cluster.next then record w { tasks = w.tasks ++ task_of r action ∷ [] } else w
step (socket c) w = record w { cluster = record w.cluster { ws_client = c } }
step (counts r failures timeouts cooldown) w = record w {
  cluster = store r (set_counters failures timeouts cooldown (w.cluster.heap r)) w.cluster;
}

unfoldable pub run : List Event → World → World
run [] w = w
run (e ∷ es) w = run es (step e w)

-- The constructor of `ModelCluster`. No object exists, so what the heap holds does not matter.
unfoldable pub new_world :
    ModelRunner → Bool → Option SecureCredentials → Option GatewayCredentials → World
unfolding new_client
new_world blank report_failure secure gateway = record {
  cluster = record {
    heap = λ r. blank;
    next = 0;
    models_run = [];
    pending_model_runs = [];
    ws_client = new_client;
    report_failure = report_failure;
    secure_credentials = secure;
    gateway_credentials = gateway;
  };
  tasks = [];
}
