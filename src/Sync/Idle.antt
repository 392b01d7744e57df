-- ===== src/Sync/Idle.antt =====
-- Where the listening coroutine waits for tasks of model_cluster.py, and that they exist.
use model_runner_client.Base.{
  ℕ, ◌≡◌, refl, Bool, true, false, Option, none, some, List, [], ◌∷◌, Bool-cases, inl, inr, ltb,
  is_some,
}
use model_runner_client.Base.Eq.{string_equality, option_equality}
use model_runner_client.Websocket.{
  WebsocketClient, opened, max_retries, Attempt, accepted, refused, Sending, is_connected, deliver,
  cleanup,
}
use model_runner_client.Cluster.{Report}
use model_runner_client.Sync.{Listener, updating, removing, handled, excepted}
use model_runner_client.Sync.Steps.{
  take_pending, connected, connect_raises, try_connect, attempt_ends, listen_head, flush_ends,
  receive_ends,
}

-- The places of the tasks that a `gather` waits for.
abbrev pub waits_for : Listener → List ℕ
waits_for (updating sync rest is) = is
waits_for (removing sync is) = is
waits_for l = []

-- The `gather`s that the handling of the message still comes to, with the one at which it waits.
abbrev pub gathers_left : Listener → ℕ
gathers_left (updating sync rest is) = 2
gathers_left (removing sync is) = 1
gathers_left l = 0

-- The coroutine waits for no task.
abbrev pub IsIdle : Listener → Type 0
IsIdle l = (waits_for l ≡ []) × (gathers_left l ≡ 0)

abbrev pub Idle : WebsocketClient Report × Listener → Type 0
Idle res = IsIdle res.1

pub handled-IsIdle : (sync : Bool) → IsIdle (handled sync)
handled-IsIdle true = (refl, refl)
handled-IsIdle false = (refl, refl)

pub excepted-IsIdle : (sync : Bool) → IsIdle (excepted sync)
excepted-IsIdle true = (refl, refl)
excepted-IsIdle false = (refl, refl)

take_pending-Idle : (c : WebsocketClient Report) (q : List Report) → Idle (take_pending c q)
unfolding take_pending
take_pending-Idle c [] = (refl, refl)
take_pending-Idle c (m ∷ rest) = (refl, refl)

connected-Idle : (sync : Bool) (c : WebsocketClient Report) → Idle (connected sync c)
unfolding connected
connected-Idle true c = take_pending-Idle c c.message_queue
connected-Idle false c = (refl, refl)

connect_raises-IsIdle : (sync : Bool) → IsIdle (connect_raises sync)
connect_raises-IsIdle true = (refl, refl)
connect_raises-IsIdle false = (refl, refl)

pub try_connect-Idle :
    (sync : Bool) (n : ℕ) (c : WebsocketClient Report) → Idle (try_connect sync n c)
unfolding try_connect
try_connect-Idle sync n c = elim (Bool-cases (ltb n max_retries)) [
  | inl e ↦ rw e (refl, refl)
  | inr e ↦ rw e (elim (Bool-cases (is_some c.websocket)) [
    | inl f ↦ rw f (connected-Idle sync c)
    | inr f ↦ rw f (connect_raises-IsIdle sync)
  ])
]

pub attempt_ends-Idle :
    (sync : Bool) (n : ℕ) (a : Attempt) (c : WebsocketClient Report)
    → Idle (attempt_ends sync n a c)
unfolding attempt_ends
attempt_ends-Idle sync n accepted c = connected-Idle sync (record c { websocket = some opened })
attempt_ends-Idle sync n (refused e) c = (refl, refl)

listen_from-Idle :
    (o : Option Bool) (c : WebsocketClient Report) → c.listening ≡ o → Idle (listen_head c)
unfolding listen_head
listen_from-Idle none c e = rw (e, listen_head) (refl, refl)
listen_from-Idle (some false) c e = rw (e, listen_head) (refl, refl)
listen_from-Idle (some true) c e = elim (Bool-cases (is_connected c)) [
  | inl f ↦ rw (e, f, listen_head) (refl, refl)
  | inr f ↦ rw (e, f, listen_head) (try_connect-Idle true 0 c)
]

pub listen_head-Idle : (c : WebsocketClient Report) → Idle (listen_head c)
listen_head-Idle c = listen_from-Idle c.listening c refl

pub flush_ends-Idle :
    (m : Report) (x : Sending) (c : WebsocketClient Report) → Idle (flush_ends m x c)
unfolding flush_ends
flush_ends-Idle m none c = take_pending-Idle (deliver m c) (deliver m c).message_queue
flush_ends-Idle m (some e) c = (refl, refl)

pub receive_ends-Idle :
    (sync raised : Bool) (c : WebsocketClient Report) → Idle (receive_ends sync raised c)
unfolding receive_ends
receive_ends-Idle false raised c = (refl, refl)
receive_ends-Idle true true c = (refl, refl)
receive_ends-Idle true false c = listen_head-Idle (cleanup c)
