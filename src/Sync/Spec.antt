-- ===== src/Sync/Spec.antt =====
-- What the listening coroutine of websocket_client.py and model_cluster.py has to do to the cluster: which
-- events each message comes to, and in which order.
use model_runner_client.Base.{
  ℕ, Option, none, some, List, [], ◌∷◌, ◌++◌, ◌&&◌, ◌||◌, not, if◌then◌else◌,
}
use model_runner_client.Base.Eq.{◌==◌, string_equality, option_equality}
use model_runner_client.Cluster.{Task}
use model_runner_client.Cluster.Updates.{ModelUpdate}
use model_runner_client.Cluster.World.{World, Event, turn, update, init_end, spawn, socket, counts}
use model_runner_client.Sync.{Decoded, message, Listener, receiving, some_failed, all_finished}
use model_runner_client.Sync.Due.{Due, due_after}
use model_runner_client.Sync.Steps.{
  Input, receives, gathers, Sync, SyncEvent, listens, task_turn, starts_task, writes_counters,
  sync_step,
}

-- The events of a history but for the changes of the connection.
abbrev pub visible : List Event → List Event
visible [] = []
visible (socket c ∷ es) = visible es
visible (e ∷ es) = e ∷ visible es

-- The rows of an event.
abbrev pub rows_events : Option (List ModelUpdate) → List Event
rows_events none = []
rows_events (some us) = update us ∷ []

-- What a message means for the cluster.
abbrev pub meaning : Decoded → List Event
meaning (message event_type rows) =
    if event_type == some "init" || event_type == some "update" then rows_events rows else []
meaning _ = []

abbrev pub rest_events : Option (List ModelUpdate) → List Event
rest_events none = []
rest_events (some us) = init_end us ∷ []

-- Some events, if all tasks that are waited for have finished.
abbrev pub if_gathered : List ℕ → List Task → List Event → List Event
if_gathered is ts es = if not (some_failed is ts) && all_finished is ts then es else []

-- The second part of an `init` event, when all tasks of the first have finished.
abbrev pub due_events : Due → List Task → List Event
due_events none ts = []
due_events (some (rest, is)) ts = if_gathered is ts (rest_events rest)

-- The events that a step must come to: a message that is received is handled, and what is due follows.
-- What is due is known by the messages and the tasks alone.
abbrev pub listener_events : Listener → Input → Due → World → List Event
listener_events (receiving sync) (receives d) due w = meaning d
listener_events l gathers due w = due_events due w.tasks
listener_events l x due w = []

abbrev pub events_of : SyncEvent → Due → Sync → List Event
events_of (listens x) due s = listener_events s.listener x due s.world
events_of (task_turn i a) due s = turn i a ∷ []
events_of (starts_task r action) due s = spawn r action ∷ []
events_of (writes_counters r failures timeouts cooldown) due s =
    counts r failures timeouts cooldown ∷ []
events_of _ due s = []

abbrev pub due_then : SyncEvent → Due → Sync → Due
due_then (listens x) due s = due_after s.listener x due s.world
due_then _ due s = due

abbrev pub events_in : List SyncEvent → Due → Sync → List Event
events_in [] due s = []
events_in (e ∷ es) due s = events_of e due s ++ events_in es (due_then e due s) (sync_step e s)
