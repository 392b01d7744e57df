-- ===== src/Tests/Socket.antt =====
-- Runs of the WebSocket client.
use mathlib.Core.List.{Perm}
use model_runner_client.Base.{
  ◌≡◌, refl, ◌++◌, true, false, none, some, [], ◌∷◌, List, String, inr, arith,
}
use model_runner_client.Websocket.{
  WebsocketClient, opened, closed, connection_closed, connection_refused, Round, Attempt, accepted,
  refused, done, send_pending, connect, cleanup, is_connected,
}
use model_runner_client.Websocket.Queue.{traffic, send_pending_keeps}
use model_runner_client.Websocket.Listen.{Iteration, listen_turn, listen_delivers}
use model_runner_client.Websocket.Reconnect.{connect_lem, reconnect_hides_failure}

abbrev client : WebsocketClient String
client = record {
  websocket = some opened;
  listening = some true;
  message_queue = "a" ∷ "b" ∷ [];
  delivered = [];
  entrusted = [];
}

abbrev lost : WebsocketClient String
lost = record client { websocket = some closed }

-- The first message is sent while another arrives, and the second fails.
abbrev rounds : List (Round String)
rounds = ("c" ∷ [], none) ∷ ([], some connection_closed) ∷ []

send_pending_keeps_example :
    Perm (traffic (send_pending rounds client).0) (traffic client ++ "c" ∷ [])
send_pending_keeps_example = send_pending_keeps rounds client

abbrev refusals : List Attempt
refusals =
    refused connection_refused
    ∷ refused connection_refused
    ∷ refused connection_refused
    ∷ refused connection_refused
    ∷ refused connection_refused
    ∷ []

connect_lem_example :
    connect (refused connection_refused ∷ accepted ∷ refusals) lost
    ≡ (record lost { websocket = some opened }, done)
connect_lem_example =
    connect_lem (refused connection_refused ∷ accepted ∷ refusals) lost (omega arith)

reconnect_hides_failure_example :
    (connect refusals (cleanup lost) ≡ (lost, done)) × (is_connected lost ≡ false)
reconnect_hides_failure_example =
    reconnect_hides_failure refusals lost closed refl (inr refl) (omega arith) refl

abbrev recovery : Iteration String
recovery = record {
  attempts = refused connection_refused ∷ accepted ∷ refusals;
  rounds = ([], none) ∷ ([], none) ∷ [];
  ends_in = closed;
}

listen_delivers_example :
    let d = (listen_turn recovery lost).0 in (d.delivered ≡ "a" ∷ "b" ∷ []) × (d.message_queue ≡ [])
unfolding is_connected
listen_delivers_example =
    listen_delivers recovery lost refl (omega arith) refl (refl, refl, (refl, refl, tt))
      (omega arith)
