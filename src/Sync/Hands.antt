-- ===== src/Sync/Hands.antt =====
-- The queue of websocket_client.py and the message in hand, in the parts of the listening coroutine that
-- work on the client alone.
use model_runner_client.Base.{
  ℕ, ◌≡◌, refl, Bool, true, false, Option, none, some, List, [], ◌∷◌, Bool-cases, inl, inr, ltb,
  is_some,
}
use model_runner_client.Base.Eq.{string_equality, option_equality}
use model_runner_client.Websocket.{
  WebsocketClient, opened, max_retries, Attempt, accepted, refused, Sending, is_connected, deliver,
  cleanup,
}
use model_runner_client.Websocket.Mail.{
  IsBalanced, deliver-IsBalanced, enqueue-IsBalanced, take-IsBalanced,
}
use model_runner_client.Cluster.{Report}
use model_runner_client.Sync.{Listener, flushing}
use model_runner_client.Sync.Steps.{
  take_pending, connected, connect_raises, try_connect, attempt_ends, listen_head, flush_ends,
  receive_ends,
}

-- The message that was taken from the queue and whose send is under way.
abbrev pub in_hand : Listener → List Report
in_hand (flushing m) = m ∷ []
in_hand l = []

abbrev pub IsOk : WebsocketClient Report × Listener → Type 0
IsOk res = IsBalanced (in_hand res.1) res.0

take_pending-IsOk :
    (q : List Report) (c : WebsocketClient Report)
    → c.message_queue ≡ q
    → IsBalanced [] c
    → IsOk (take_pending c q)
unfolding take_pending
take_pending-IsOk [] c e h = h
take_pending-IsOk (m ∷ rest) c e h = take-IsBalanced m rest c e h

connected-IsOk :
    (sync : Bool) (c : WebsocketClient Report) → IsBalanced [] c → IsOk (connected sync c)
unfolding connected
connected-IsOk true c h = take_pending-IsOk c.message_queue c refl h
connected-IsOk false c h = h

connect_raises-IsOk :
    (sync : Bool) (c : WebsocketClient Report) → IsBalanced [] c → IsOk (c, connect_raises sync)
connect_raises-IsOk true c h = h
connect_raises-IsOk false c h = h

pub try_connect-IsOk :
    (sync : Bool) (n : ℕ) (c : WebsocketClient Report)
    → IsBalanced [] c
    → IsOk (try_connect sync n c)
unfolding try_connect
try_connect-IsOk sync n c h = elim (Bool-cases (ltb n max_retries)) [
  | inl e ↦ rw e h
  | inr e ↦ rw e (elim (Bool-cases (is_some c.websocket)) [
    | inl f ↦ rw f (connected-IsOk sync c h)
    | inr f ↦ rw f (connect_raises-IsOk sync c h)
  ])
]

pub attempt_ends-IsOk :
    (sync : Bool) (n : ℕ) (a : Attempt) (c : WebsocketClient Report)
    → IsBalanced [] c
    → IsOk (attempt_ends sync n a c)
unfolding attempt_ends
attempt_ends-IsOk sync n accepted c h = connected-IsOk sync (record c { websocket = some opened }) h
attempt_ends-IsOk sync n (refused e) c h = h

listen_from-IsOk :
    (o : Option Bool) (c : WebsocketClient Report)
    → c.listening ≡ o
    → IsBalanced [] c
    → IsOk (listen_head c)
unfolding listen_head
listen_from-IsOk none c e h = rw (e, listen_head) h
listen_from-IsOk (some false) c e h = rw (e, listen_head) h
listen_from-IsOk (some true) c e h = elim (Bool-cases (is_connected c)) [
  | inl f ↦ rw (e, f, listen_head) h
  | inr f ↦ rw (e, f, listen_head) (try_connect-IsOk true 0 c h)
]

pub listen_head-IsOk : (c : WebsocketClient Report) → IsBalanced [] c → IsOk (listen_head c)
listen_head-IsOk c h = listen_from-IsOk c.listening c refl h

pub flush_ends-IsOk :
    (m : Report) (x : Sending) (c : WebsocketClient Report)
    → IsBalanced (m ∷ []) c
    → IsOk (flush_ends m x c)
unfolding flush_ends
flush_ends-IsOk m none c h =
    take_pending-IsOk (deliver m c).message_queue (deliver m c) refl (deliver-IsBalanced m c h)
flush_ends-IsOk m (some e) c h = enqueue-IsBalanced m c h

pub cleanup-IsBalanced : (c : WebsocketClient Report) → IsBalanced [] c → IsBalanced [] (cleanup c)
unfolding cleanup
cleanup-IsBalanced c h = h

pub receive_ends-IsOk :
    (sync raised : Bool) (c : WebsocketClient Report)
    → IsBalanced [] c
    → IsOk (receive_ends sync raised c)
unfolding receive_ends
receive_ends-IsOk false raised c h = h
receive_ends-IsOk true true c h = h
receive_ends-IsOk true false c h = listen_head-IsOk (cleanup c) (cleanup-IsBalanced c h)
