-- ===== src/Websocket.antt =====
-- model_runner_client/websocket_client.py: the connection to the orchestrator, with its retries, the
-- queue of messages that could not be sent, and the listening loop. The library `websockets` is not
-- modelled: how its calls end is given by the environment.
pub mod Queue
pub mod Mail
pub mod Order
pub mod Reconnect
pub mod Listen
use model_runner_client.Base.{
  ℕ, zero, suc, Bool, true, false, ◌&&◌, not, Option, none, some, List, [], ◌∷◌, ◌++◌,
  if◌then◌else◌, is_some,
}

-- `websockets.State`, an `IntEnum` that starts at 0.
pub data SocketState : Type 0 where
  connecting opened closing closed : SocketState

-- The exceptions that this file tells apart.
pub data SocketError : Type 0 where
  connection_closed invalid_state timed_out connection_refused other : SocketError

-- `M` is the type of the messages that go out. Two fields are not in the source: `delivered` records
-- the messages for which `websocket.send` returned, and `entrusted` those for which `send_message` did.
pub record WebsocketClient (M : Type 0) : Type 0 where
  pub websocket : Option SocketState
  pub listening : Option Bool
  pub message_queue : List M
  pub delivered : List M
  pub entrusted : List M

-- `self.max_retries`
abbrev pub max_retries : ℕ
max_retries = 5

-- The constructor.
unfoldable pub new_client : {M : Type 0} → WebsocketClient M
new_client = record {
  websocket = none;
  listening = none;
  message_queue = [];
  delivered = [];
  entrusted = [];
}

abbrev is_open : SocketState → Bool
is_open opened = true
is_open _ = false

abbrev pub socket_open : Option SocketState → Bool
socket_open none = false
socket_open (some s) = is_open s

-- `bool(state)`: only the member with the value 0 is false.
abbrev pub state_truthy : SocketState → Bool
state_truthy connecting = false
state_truthy _ = true

-- What `await self.websocket.send` raises, if anything.
abbrev pub Sending : Type 0
Sending = Option SocketError

-- The messages that other tasks put during a send, and how the send ends.
abbrev pub Round : Type 0 → Type 0
Round M = List M × Sending

pub data Flush : Type 0 where
  flushing : Flush
  flushed : Flush
  flush_failed : SocketError → Flush

module _ {M : Type 0} where
  unfoldable pub is_connected : WebsocketClient M → Bool
  is_connected c = socket_open c.websocket

  -- `self.message_queue.put(message)`
  unfoldable pub enqueue : M → WebsocketClient M → WebsocketClient M
  enqueue m c = record c { message_queue = c.message_queue ++ m ∷ [] }

  unfoldable pub deliver : M → WebsocketClient M → WebsocketClient M
  deliver m c = record c { delivered = c.delivered ++ m ∷ [] }

  -- `send_message` returns.
  unfoldable pub entrust : M → WebsocketClient M → WebsocketClient M
  entrust m c = record c { entrusted = c.entrusted ++ m ∷ [] }

  -- The `try` of `send_message`. The second part of the result is an exception that it lets through.
  unfoldable pub try_send : M → Sending → WebsocketClient M → WebsocketClient M × Option SocketError
  unfolding enqueue deliver entrust
  try_send m none c = (deliver m (entrust m c), none)
  try_send m (some connection_closed) c = (enqueue m (entrust m c), none)
  try_send m (some invalid_state) c = (enqueue m (entrust m c), none)
  try_send m (some timed_out) c = (enqueue m (entrust m c), none)
  try_send m (some connection_refused) c = (c, some connection_refused)
  try_send m (some other) c = (c, some other)

  unfoldable pub send_message :
      M → Sending → WebsocketClient M → WebsocketClient M × Option SocketError
  unfolding try_send is_connected entrust
  send_message m sending c =
      if is_connected c then try_send m sending c else (enqueue m (entrust m c), none)

  -- The rest of a turn of the loop of `_send_pending_messages`, for a message that was taken from
  -- the queue.
  after_send : Round M → M → List M → WebsocketClient M → WebsocketClient M × Option SocketError
  unfolding deliver
  after_send (arrivals, none) m rest c =
      (deliver m (record c { message_queue = rest ++ arrivals }), none)
  after_send (arrivals, some e) m rest c =
      (record c { message_queue = (rest ++ arrivals) ++ m ∷ [] }, some e)

  go_on :
      WebsocketClient M × Option SocketError
      → (WebsocketClient M → WebsocketClient M × Flush)
      → WebsocketClient M × Flush
  go_on (c, none) k = k c
  go_on (c, some e) k = (c, flush_failed e)

  -- One turn of the loop, and `k` for the turns after it.
  flush_turn :
      (WebsocketClient M → WebsocketClient M × Flush)
      → Round M
      → List M
      → WebsocketClient M
      → WebsocketClient M × Flush
  unfolding after_send go_on
  flush_turn k r [] c = (c, flushed)
  flush_turn k r (m ∷ rest) c = go_on (after_send r m rest c) k

  -- Before a send has ended: the message is still counted to the queue.
  flush_end : List M → WebsocketClient M → WebsocketClient M × Flush
  flush_end [] c = (c, flushed)
  flush_end (m ∷ rest) c = (c, flushing)

  -- `_send_pending_messages`, over the rounds that have ended so far.
  unfoldable pub send_pending : List (Round M) → WebsocketClient M → WebsocketClient M × Flush
  unfolding flush_turn flush_end
  send_pending [] c = flush_end c.message_queue c
  send_pending (r ∷ rounds) c = flush_turn (send_pending rounds) r c.message_queue c

cleanup_state : Option SocketState → Option SocketState
cleanup_state none = none
cleanup_state (some s) = if state_truthy s then some s else none

-- How an attempt of `connect` ends. All exceptions are treated alike.
pub data Attempt : Type 0 where
  accepted : Attempt
  refused : SocketError → Attempt

pub data Connection : Type 0 where
  -- `connect` still waits for an attempt or sleeps
  trying : Connection
  -- it has returned
  done : Connection
  -- `ConnectionError`
  connection_error : Connection

module _ {M : Type 0} where
  -- After the loop.
  after_retries : WebsocketClient M → WebsocketClient M × Connection
  after_retries c = if not (is_some c.websocket) then (c, connection_error) else (c, done)

  -- The loop of `connect`, with the retries that are left and the attempts that have ended so far.
  connect_loop : ℕ → List Attempt → WebsocketClient M → WebsocketClient M × Connection
  unfolding after_retries
  connect_loop zero attempts c = after_retries c
  connect_loop (suc n) [] c = (c, trying)
  connect_loop (suc n) (accepted ∷ attempts) c = (record c { websocket = some opened }, done)
  connect_loop (suc n) (refused e ∷ attempts) c = connect_loop n attempts c

  unfoldable pub connect : List Attempt → WebsocketClient M → WebsocketClient M × Connection
  unfolding connect_loop
  connect attempts c = connect_loop max_retries attempts c

  -- The `finally` clause of `listen`.
  unfoldable pub cleanup : WebsocketClient M → WebsocketClient M
  unfolding cleanup_state
  cleanup c = record c { websocket = cleanup_state c.websocket }

  -- `disconnect`
  unfoldable pub disconnect : WebsocketClient M → WebsocketClient M
  disconnect c =
      if is_some c.websocket
      then record c { listening = some false; websocket = some closed }
      else record c { listening = some false }
