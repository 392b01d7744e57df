-- ===== src/Sync/Reports.antt =====
-- Where the reports are that the tasks of model_cluster.py have handed to websocket_client.py, in any run of
-- the listening coroutine.
use mathlib.Core.List.Perm
use mathlib.Core.List.{Perm}
use model_runner_client.Base.{
  ℕ, ◌≡◌, refl, Bool, true, false, Option, none, some, List, [], ◌∷◌, ◌++◌, Bool-cases, inl, inr,
  is_some, suc,
}
use model_runner_client.Base.Eq.{◌==◌, string_equality, option_equality}
use model_runner_client.Credentials.{SecureCredentials, GatewayCredentials}
use model_runner_client.Runner.{ModelRunner}
use model_runner_client.Websocket.{WebsocketClient, SocketState, cleanup, disconnect}
use model_runner_client.Websocket.Mail.{IsBalanced}
use model_runner_client.Cluster.{Report, Task}
use model_runner_client.Cluster.Updates.{ModelUpdate}
use model_runner_client.Cluster.World
use model_runner_client.Cluster.World.{
  World, Event, turn, update, init_end, spawn, socket, counts, new_world,
}
use model_runner_client.Cluster.Reported.{step-Keeps}
use model_runner_client.Sync.{
  Decoded, undecodable, no_object, message, Listener, stopped, attempting, pausing, flushing,
  receiving, updating, removing, sleeping, handled, excepted, gather, begin_update, begin_rows,
  handle_event, on_message, after_update, gathered, some_failed, all_finished,
}
use model_runner_client.Sync.Steps.{
  try_connect, attempt_ends, listen_head, flush_ends, receive_ends, Input, starts_init, starts_sync,
  attempt_is, wakes, send_is, receives, receive_stops, gathers, on_client, start_listening,
  listener_step, Sync, SyncEvent, listens, task_turn, starts_task, writes_counters, connection_is,
  disconnects, set_connection, sync_step, run_sync,
}
use model_runner_client.Sync.Refines.{at_rest}
use model_runner_client.Sync.Hands.{
  in_hand, IsOk, try_connect-IsOk, attempt_ends-IsOk, listen_head-IsOk, flush_ends-IsOk,
  receive_ends-IsOk, cleanup-IsBalanced,
}

-- The invariant: the balance, with what the coroutine has in hand.
abbrev pub IsKept : World × Listener → Type 0
IsKept (w, l) = IsBalanced (in_hand l) w.cluster.ws_client

on_client-IsKept :
    (f : WebsocketClient Report → WebsocketClient Report × Listener) (w : World)
    → IsOk (f w.cluster.ws_client)
    → IsKept (on_client f w)
unfolding on_client World.step
on_client-IsKept f w h = h

handled-IsKept : (sync : Bool) (w : World) → IsKept (w, stopped) → IsKept (w, handled sync)
handled-IsKept true w h = h
handled-IsKept false w h = h

excepted-IsKept : (sync : Bool) (w : World) → IsKept (w, stopped) → IsKept (w, excepted sync)
excepted-IsKept true w h = h
excepted-IsKept false w h = h

gather-IsKept :
    (sync : Bool) (n : ℕ) (o : Option (List Task)) (k : List ℕ → Listener) (w : World)
    → ((is : List ℕ) → in_hand (k is) ≡ [])
    → IsKept (w, stopped)
    → IsKept (w, gather sync n o k)
unfolding gather
gather-IsKept sync n none k w e h = excepted-IsKept sync w h
gather-IsKept sync n (some ts) k w e h = rw e h

begin_rows-IsKept :
    (sync : Bool) (rest : List ModelUpdate → Option (List ModelUpdate))
    (rows : Option (List ModelUpdate)) (w : World)
    → IsKept (w, stopped)
    → IsKept (begin_rows sync rest rows w)
unfolding begin_rows begin_update
begin_rows-IsKept sync rest none w h = excepted-IsKept sync w h
begin_rows-IsKept sync rest (some us) w h =
    gather-IsKept sync _ _ (updating sync (rest us)) (World.step (update us) w) (λ is. refl)
      (step-Keeps (update us) w tt [] h)

on_message-IsKept :
    (sync : Bool) (d : Decoded) (w : World) → IsKept (w, stopped) → IsKept (on_message sync d w)
unfolding on_message handle_event
on_message-IsKept sync undecodable w h = handled-IsKept sync w h
on_message-IsKept sync no_object w h = excepted-IsKept sync w h
on_message-IsKept sync (message event_type rows) w h =
    elim (Bool-cases (event_type == some "init")) [
      | inl e ↦ rw e (begin_rows-IsKept sync (λ us. some us) rows w h)
      | inr e ↦ rw e (elim (Bool-cases (event_type == some "update")) [
        | inl f ↦ rw f (begin_rows-IsKept sync (λ us. none) rows w h)
        | inr f ↦ rw f (handled-IsKept sync w h)
      ])
    ]

after_update-IsKept :
    (sync : Bool) (rest : Option (List ModelUpdate)) (w : World)
    → IsKept (w, stopped)
    → IsKept (after_update sync rest w)
unfolding after_update
after_update-IsKept sync none w h = handled-IsKept sync w h
after_update-IsKept sync (some us) w h =
    gather-IsKept sync _ _ (removing sync) (World.step (init_end us) w) (λ is. refl)
      (step-Keeps (init_end us) w tt [] h)

gathered-IsKept :
    (sync : Bool) (is : List ℕ) (here : Listener) (k : World → World × Listener) (w : World)
    → IsKept (w, stopped)
    → IsKept (w, here)
    → IsKept (k w)
    → IsKept (gathered sync is here k w)
unfolding gathered
gathered-IsKept sync is here k w h i j = elim (Bool-cases (some_failed is w.tasks)) [
  | inl e ↦ rw e (excepted-IsKept sync w h)
  | inr e ↦ rw e (elim (Bool-cases (all_finished is w.tasks)) [ inl f ↦ rw f j | inr f ↦ rw f i ])
]

listener_step-IsKept :
    (l : Listener) (x : Input) (w : World) → IsKept (w, l) → IsKept (listener_step l x w)
unfolding listener_step
listener_step-IsKept stopped starts_init w h =
    on_client-IsKept (try_connect false 0) w (try_connect-IsOk false 0 w.cluster.ws_client h)
listener_step-IsKept stopped starts_sync w h =
    on_client-IsKept (λ c. listen_head (start_listening c)) w
      (listen_head-IsOk (start_listening w.cluster.ws_client) h)
listener_step-IsKept (attempting sync n) (attempt_is a) w h =
    on_client-IsKept (attempt_ends sync n a) w (attempt_ends-IsOk sync n a w.cluster.ws_client h)
listener_step-IsKept (pausing sync n) wakes w h =
    on_client-IsKept (try_connect sync (suc n)) w
      (try_connect-IsOk sync (suc n) w.cluster.ws_client h)
listener_step-IsKept (flushing m) (send_is x) w h =
    on_client-IsKept (flush_ends m x) w (flush_ends-IsOk m x w.cluster.ws_client h)
listener_step-IsKept (receiving sync) (receives d) w h = on_message-IsKept sync d w h
listener_step-IsKept (receiving sync) (receive_stops raised) w h =
    on_client-IsKept (receive_ends sync raised) w
      (receive_ends-IsOk sync raised w.cluster.ws_client h)
listener_step-IsKept (updating sync rest is) gathers w h =
    gathered-IsKept sync is (updating sync rest is) (after_update sync rest) w h h
      (after_update-IsKept sync rest w h)
listener_step-IsKept (removing sync is) gathers w h =
    gathered-IsKept sync is (removing sync is) (λ v. (v, handled sync)) w h h
      (handled-IsKept sync w h)
listener_step-IsKept sleeping wakes w h =
    on_client-IsKept (λ c. listen_head (cleanup c)) w
      (listen_head-IsOk (cleanup w.cluster.ws_client) (cleanup-IsBalanced w.cluster.ws_client h))
listener_step-IsKept _ _ w h = h

-- A change of the connection alone.
set_connection-IsBalanced :
    (st : SocketState) (hand : List Report) (c : WebsocketClient Report)
    → IsBalanced hand c
    → IsBalanced hand (set_connection st c)
set_connection-IsBalanced st hand c h = elim (Bool-cases (is_some c.websocket)) [
  | inl e ↦ rw e h
  | inr e ↦ rw e h
]

disconnect-IsBalanced :
    (hand : List Report) (c : WebsocketClient Report)
    → IsBalanced hand c
    → IsBalanced hand (disconnect c)
unfolding disconnect
disconnect-IsBalanced hand c h = elim (Bool-cases (is_some c.websocket)) [
  | inl e ↦ rw e h
  | inr e ↦ rw e h
]

AreKept : Sync → Type 0
AreKept s = IsKept (s.world, s.listener)

sync_step-AreKept : (e : SyncEvent) (s : Sync) → AreKept s → AreKept (sync_step e s)
unfolding AreKept sync_step
sync_step-AreKept (listens x) s h = listener_step-IsKept s.listener x s.world h
sync_step-AreKept (task_turn i a) s h = step-Keeps (turn i a) s.world tt (in_hand s.listener) h
sync_step-AreKept (starts_task r action) s h =
    step-Keeps (spawn r action) s.world tt (in_hand s.listener) h
sync_step-AreKept (writes_counters r failures timeouts cooldown) s h =
    step-Keeps (counts r failures timeouts cooldown) s.world tt (in_hand s.listener) h
sync_step-AreKept (connection_is st) s h =
    set_connection-IsBalanced st (in_hand s.listener) s.world.cluster.ws_client h
sync_step-AreKept disconnects s h =
    disconnect-IsBalanced (in_hand s.listener) s.world.cluster.ws_client h

run_sync-AreKept : (es : List SyncEvent) (s : Sync) → AreKept s → AreKept (run_sync es s)
unfolding run_sync
run_sync-AreKept [] s h = h
run_sync-AreKept (e ∷ es) s h = run_sync-AreKept es (sync_step e s) (sync_step-AreKept e s h)

-- In every run of the listening coroutine beside the tasks of the cluster and the calls, the reports
-- for which `send_message` has returned are, each once, those that were sent, those in the queue, and the
-- one that was taken from the queue and whose send is under way.
pub reports_kept :
    (es : List SyncEvent) (blank : ModelRunner) (report_failure : Bool)
    (secure : Option SecureCredentials) (gateway : Option GatewayCredentials)
    → let s = run_sync es (at_rest (new_world blank report_failure secure gateway)) in
      let c = s.world.cluster.ws_client in
      Perm (in_hand s.listener ++ (c.delivered ++ c.message_queue)) c.entrusted
unfolding AreKept new_world
reports_kept es blank report_failure secure gateway =
    run_sync-AreKept es (at_rest (new_world blank report_failure secure gateway)) (Perm.refl [])
