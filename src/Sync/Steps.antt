-- ===== src/Sync/Steps.antt =====
-- The steps of the listening coroutine: the connection with `connect`, `_send_pending_messages` and
-- `listen` of websocket_client.py, and the whole coroutine beside the tasks of the cluster.
use model_runner_client.Base.Int.{ℤ}
use model_runner_client.Base.{
  ℕ, suc, Bool, true, false, none, some, List, [], ◌∷◌, if◌then◌else◌, is_some, ltb,
}
use model_runner_client.Base.Eq.{string_equality, option_equality}
use model_runner_client.Concurrent.{Ref, Action}
use model_runner_client.Websocket.{
  WebsocketClient, SocketState, opened, max_retries, Attempt, accepted, refused, Sending,
  is_connected, enqueue, deliver, cleanup, disconnect,
}
use model_runner_client.Cluster.{Report}
use model_runner_client.Cluster.Coroutines.{Answer}
use model_runner_client.Cluster.World
use model_runner_client.Cluster.World.{World, turn, update, init_end, spawn, socket, counts}
use model_runner_client.Sync.{
  Decoded, Listener, stopped, init_failed, attempting, pausing, flushing, receiving, updating,
  removing, sleeping, handled, on_message, after_update, gathered,
}

-- The head of the loop of `_send_pending_messages`, and the receiving after it.
unfoldable pub take_pending :
    WebsocketClient Report → List Report → WebsocketClient Report × Listener
take_pending c [] = (c, receiving true)
take_pending c (m ∷ rest) = (record c { message_queue = rest }, flushing m)

-- After `connect`: `listen` sends the queued messages, and `init` receives one.
unfoldable pub connected : Bool → WebsocketClient Report → WebsocketClient Report × Listener
unfolding take_pending
connected true c = take_pending c c.message_queue
connected false c = (c, receiving false)

abbrev pub connect_raises : Bool → Listener
connect_raises true = sleeping
connect_raises false = init_failed

-- The head of the loop of `connect`, and what follows the loop.
unfoldable pub try_connect : Bool → ℕ → WebsocketClient Report → WebsocketClient Report × Listener
unfolding connected
try_connect sync n c =
    if ltb n max_retries
    then (c, attempting sync n)
    else if is_some c.websocket
    then connected sync c
    else (c, connect_raises sync)

unfoldable pub attempt_ends :
    Bool → ℕ → Attempt → WebsocketClient Report → WebsocketClient Report × Listener
unfolding connected
attempt_ends sync n accepted c = connected sync (record c { websocket = some opened })
attempt_ends sync n (refused e) c = (c, pausing sync n)

-- The head of the loop of `listen`.
unfoldable pub listen_head : WebsocketClient Report → WebsocketClient Report × Listener
unfolding try_connect is_connected
listen_head c = elim c.listening [
  | some true ↦ if is_connected c then (c, receiving true) else try_connect true 0 c
  | some false ↦ (c, stopped)
  | none ↦ (c, stopped)
]

unfoldable pub flush_ends :
    Report → Sending → WebsocketClient Report → WebsocketClient Report × Listener
unfolding take_pending enqueue deliver
flush_ends m none c = let c' = deliver m c in take_pending c' c'.message_queue
flush_ends m (some e) c = (enqueue m c, sleeping)

-- The end of `async for`, or of `recv`, by an exception or not, and the `finally` clause.
unfoldable pub receive_ends :
    Bool → Bool → WebsocketClient Report → WebsocketClient Report × Listener
unfolding listen_head cleanup
receive_ends false raised c = (c, stopped)
receive_ends true true c = (c, sleeping)
receive_ends true false c = listen_head (cleanup c)

-- How an await of the coroutine ends, and its calls from outside.
pub data Input : Type 0 where
  -- the calls of `ModelCluster.init` and of `sync`
  starts_init starts_sync : Input
  attempt_is : Attempt → Input
  -- a sleep is over
  wakes : Input
  send_is : Sending → Input
  receives : Decoded → Input
  -- the receiving is over, by an exception or not
  receive_stops : Bool → Input
  -- a task that `gather` waits for has ended
  gathers : Input

-- A part that works on the client alone.
unfoldable pub on_client :
    (WebsocketClient Report → WebsocketClient Report × Listener) → World → World × Listener
unfolding World.step
on_client f w = let (c, l) = f w.cluster.ws_client in (World.step (socket c) w, l)

abbrev pub start_listening : WebsocketClient Report → WebsocketClient Report
start_listening c = record c { listening = some true }

-- From one await of the coroutine to the next. An input that the await cannot get changes nothing.
unfoldable pub listener_step : Listener → Input → World → World × Listener
unfolding on_client try_connect listen_head attempt_ends cleanup flush_ends on_message receive_ends
    gathered after_update
listener_step stopped starts_init w = on_client (try_connect false 0) w
listener_step stopped starts_sync w = on_client (λ c. listen_head (start_listening c)) w
listener_step (attempting sync n) (attempt_is a) w = on_client (attempt_ends sync n a) w
listener_step (pausing sync n) wakes w = on_client (try_connect sync (suc n)) w
listener_step (flushing m) (send_is x) w = on_client (flush_ends m x) w
listener_step (receiving sync) (receives d) w = on_message sync d w
listener_step (receiving sync) (receive_stops raised) w = on_client (receive_ends sync raised) w
listener_step (updating sync rest is) gathers w =
    gathered sync is (updating sync rest is) (after_update sync rest) w
listener_step (removing sync is) gathers w =
    gathered sync is (removing sync is) (λ w. (w, handled sync)) w
listener_step sleeping wakes w = on_client (λ c. listen_head (cleanup c)) w
listener_step l _ w = (w, l)

-- The cluster with its tasks, and the coroutine.
pub record Sync : Type 0 where
  pub world : World
  pub listener : Listener

pub data SyncEvent : Type 0 where
  listens : Input → SyncEvent
  -- a task of the cluster goes on, or a concurrent call starts one
  task_turn : ℕ → Answer → SyncEvent
  starts_task : Ref → Action → SyncEvent
  -- a concurrent call writes the counters of a runner
  writes_counters : Ref → ℕ → ℕ → ℤ → SyncEvent
  -- the connection changes its state
  connection_is : SocketState → SyncEvent
  -- `disconnect`
  disconnects : SyncEvent

abbrev pub set_connection : SocketState → WebsocketClient Report → WebsocketClient Report
set_connection st c = if is_some c.websocket then record c { websocket = some st } else c

unfoldable pub sync_step : SyncEvent → Sync → Sync
unfolding listener_step World.step disconnect
sync_step (listens x) s =
    let (w, l) = listener_step s.listener x s.world in record { world = w; listener = l }
sync_step (task_turn i a) s = record s { world = World.step (turn i a) s.world }
sync_step (starts_task r action) s = record s { world = World.step (spawn r action) s.world }
sync_step (writes_counters r failures timeouts cooldown) s = record s {
  world = World.step (counts r failures timeouts cooldown) s.world;
}
sync_step (connection_is st) s = record s {
  world = World.step (socket (set_connection st s.world.cluster.ws_client)) s.world;
}
sync_step disconnects s = record s {
  world = World.step (socket (disconnect s.world.cluster.ws_client)) s.world;
}

unfoldable pub run_sync : List SyncEvent → Sync → Sync
run_sync [] s = s
run_sync (e ∷ es) s = run_sync es (sync_step e s)
