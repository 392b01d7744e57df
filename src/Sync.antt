-- ===== src/Sync.antt =====
-- The coroutine that listens to the orchestrator: `ModelCluster.init`, `sync` and `handle_event` of
-- model_runner_client/model_cluster.py over `connect`, `init`, `listen` and `handle_event` of
-- websocket_client.py. It runs from one await to the next beside the tasks of the cluster, and it
-- handles one message after the other.
pub mod Steps
pub mod Due
pub mod Awaits
pub mod Spec
pub mod Refines
pub mod Hands
pub mod Reports
pub mod Idle
pub mod Waits
pub mod Handled
use model_runner_client.Base.{
  ℕ, zero, suc, Bool, true, false, ◌&&◌, ◌||◌, Option, none, some, List, [], ◌∷◌, length, get_elem?,
  if◌then◌else◌, is_some, ltb, String,
}
use model_runner_client.Base.Eq.{◌==◌, string_equality, option_equality}
use model_runner_client.Concurrent.{Ref, Action}
use model_runner_client.Websocket.{
  WebsocketClient, SocketState, SocketError, opened, max_retries, Attempt, accepted, refused,
  Sending, is_connected, enqueue, deliver, cleanup, disconnect,
}
use model_runner_client.Cluster.{Report, Task, finished, failed}
use model_runner_client.Cluster.Coroutines.{Answer}
use model_runner_client.Cluster.Updates.{ModelUpdate, update_model_runs, finish_init_event}
use model_runner_client.Cluster.World
use model_runner_client.Cluster.World.{World, turn, update, init_end, spawn, socket}

-- What `json.loads` gives for a message: a `JSONDecodeError`, a value without `get`, or an object, by
-- its `event`, if that is a text, and by what `for model_update in data` gives, if it gives objects alone.
-- Of an empty object and of an empty text it gives nothing, as of an empty list.
pub data Decoded : Type 0 where
  undecodable : Decoded
  no_object : Decoded
  message : Option String → Option (List ModelUpdate) → Decoded

-- The await at which the coroutine stands. The Boolean says that it is `sync`, and not `init`.
pub data Listener : Type 0 where
  -- neither runs: not started, or returned
  stopped : Listener
  -- the `ConnectionError` left `ModelCluster.init`
  init_failed : Listener
  -- `websockets.connect` and `asyncio.sleep` in `connect`, with `retry_count`
  attempting : Bool → ℕ → Listener
  pausing : Bool → ℕ → Listener
  -- `self.websocket.send` in `_send_pending_messages`, for a message that was taken from the queue
  flushing : Report → Listener
  -- the next message
  receiving : Bool → Listener
  -- `asyncio.gather` in `update_model_runs`, on the tasks at these places; for an `init` event with
  -- its data
  updating : Bool → Option (List ModelUpdate) → List ℕ → Listener
  -- `asyncio.gather` in `handle_init_event`
  removing : Bool → List ℕ → Listener
  -- `asyncio.sleep` in `listen`
  sleeping : Listener

-- After `handle_event` has returned: `listen` receives again, and `init` is over.
abbrev pub handled : Bool → Listener
handled true = receiving true
handled false = stopped

-- After an exception: `listen` sleeps, and `WebsocketClient.init` logs it and is over.
abbrev pub excepted : Bool → Listener
excepted true = sleeping
excepted false = stopped

-- The places of new tasks behind `n` others.
abbrev pub places : ℕ → List Task → List ℕ
places n [] = []
places n (t ∷ ts) = n ∷ places (suc n) ts

unfoldable pub gather : Bool → ℕ → Option (List Task) → (List ℕ → Listener) → Listener
gather sync n none k = excepted sync
gather sync n (some ts) k = k (places n ts)

-- `handle_update_event`, and `handle_init_event` up to its first await.
unfoldable pub begin_update :
    Bool → Option (List ModelUpdate) → List ModelUpdate → World → World × Listener
unfolding gather World.step
begin_update sync rest us w = (
  World.step (update us) w,
  gather sync (length w.tasks) (update_model_runs us w.cluster).1 (updating sync rest),
)

-- `for model_update in data` raises for data of another kind.
unfoldable pub begin_rows :
    Bool
    → (List ModelUpdate → Option (List ModelUpdate))
    → Option (List ModelUpdate)
    → World
    → World × Listener
unfolding begin_update
begin_rows sync rest none w = (w, excepted sync)
begin_rows sync rest (some us) w = begin_update sync (rest us) us w

-- `ModelCluster.handle_event`. It raises again what it catches.
unfoldable pub handle_event :
    Bool → Option String → Option (List ModelUpdate) → World → World × Listener
unfolding begin_rows
handle_event sync event_type rows w =
    if event_type == some "init"
    then begin_rows sync (λ us. some us) rows w
    else if event_type == some "update"
    then begin_rows sync (λ us. none) rows w
    else (w, handled sync)

-- `WebsocketClient.handle_event`
unfoldable pub on_message : Bool → Decoded → World → World × Listener
unfolding handle_event
on_message sync undecodable w = (w, handled sync)
on_message sync no_object w = (w, excepted sync)
on_message sync (message event_type rows) w = handle_event sync event_type rows w

-- After the first `gather` of an event.
unfoldable pub after_update : Bool → Option (List ModelUpdate) → World → World × Listener
unfolding gather World.step
after_update sync none w = (w, handled sync)
after_update sync (some us) w = (
  World.step (init_end us) w,
  gather sync (length w.tasks) (finish_init_event us w.cluster) (removing sync),
)

abbrev pub is_finished : Option Task → Bool
is_finished (some finished) = true
is_finished _ = false

abbrev pub is_failed : Option Task → Bool
is_failed (some (failed e)) = true
is_failed _ = false

abbrev pub all_finished : List ℕ → List Task → Bool
all_finished [] ts = true
all_finished (i ∷ is) ts = is_finished (get_elem? ts i) && all_finished is ts

abbrev pub some_failed : List ℕ → List Task → Bool
some_failed [] ts = false
some_failed (i ∷ is) ts = is_failed (get_elem? ts i) || some_failed is ts

-- `asyncio.gather` raises when one task has failed, and returns when all have finished. Otherwise
-- the coroutine stays where it is.
unfoldable pub gathered :
    Bool → List ℕ → Listener → (World → World × Listener) → World → World × Listener
gathered sync is here k w =
    if some_failed is w.tasks
    then (w, excepted sync)
    else if all_finished is w.tasks
    then k w
    else (w, here)
