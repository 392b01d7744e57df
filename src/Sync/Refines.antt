-- ===== src/Sync/Refines.antt =====
-- That the listening coroutine of websocket_client.py and model_cluster.py stays within the histories
-- of Cluster/World, so that what holds for all of them holds for every run of the program.
use model_runner_client.Base.{
  ℕ, ◌≡◌, refl, sym, ap, ◌∙◌, Bool, false, Option, none, some, List, [], ◌∷◌, ◌++◌, String,
  Bool-cases, suc, subst, arith, inl, inr,
}
use model_runner_client.Base.Eq.{◌==◌, string_equality, option_equality}
use model_runner_client.Websocket.{WebsocketClient, cleanup}
use model_runner_client.Cluster.{Report, Task}
use model_runner_client.Cluster.Updates.{ModelUpdate}
use model_runner_client.Cluster.World
use model_runner_client.Cluster.World.{
  World, Event, turn, update, init_end, spawn, socket, counts, run,
}
use model_runner_client.Sync.{
  Decoded, undecodable, no_object, message, Listener, stopped, init_failed, attempting, pausing,
  flushing, receiving, updating, removing, sleeping, begin_update, begin_rows, handle_event,
  on_message, after_update, gathered, some_failed, all_finished, handled,
}
use model_runner_client.Sync.Due.{Due, awaited}
use model_runner_client.Sync.Awaits.{listener_step-due}
use model_runner_client.Sync.Steps.{
  Input, starts_init, starts_sync, attempt_is, wakes, send_is, receives, receive_stops, gathers,
  on_client, listener_step, Sync, SyncEvent, listens, task_turn, starts_task, writes_counters,
  connection_is, disconnects, try_connect, listen_head, start_listening, attempt_ends, flush_ends,
  receive_ends, sync_step, run_sync,
}
use model_runner_client.Sync.Spec.{
  visible, rows_events, meaning, rest_events, due_events, if_gathered, listener_events, events_of,
  due_then, events_in,
}

-- One world comes from the other by a history with these events and changes of the connection.
abbrev pub Reaches : List Event → World → World → Type 0
Reaches expected w w' = (es : List Event) × (w' ≡ run es w) × (visible es ≡ expected)

Reaches-none : (w : World) → Reaches [] w w
unfolding run
Reaches-none w = ([], refl, refl)

Reaches-socket : (c : WebsocketClient Report) (w : World) → Reaches [] w (World.step (socket c) w)
unfolding run
Reaches-socket c w = (socket c ∷ [], refl, refl)

run-append : (es fs : List Event) (w : World) → run (es ++ fs) w ≡ run fs (run es w)
unfolding run
run-append [] fs w = refl
run-append (e ∷ es) fs w = run-append es fs (World.step e w)

visible-append : (es fs : List Event) → visible (es ++ fs) ≡ visible es ++ visible fs
visible-append [] fs = refl
visible-append (socket c ∷ es) fs = visible-append es fs
visible-append (turn i a ∷ es) fs = ap (λ xs. turn i a ∷ xs) (visible-append es fs)
visible-append (update us ∷ es) fs = ap (λ xs. update us ∷ xs) (visible-append es fs)
visible-append (init_end us ∷ es) fs = ap (λ xs. init_end us ∷ xs) (visible-append es fs)
visible-append (counts r f t c ∷ es) fs = ap (λ xs. counts r f t c ∷ xs) (visible-append es fs)
visible-append (spawn r action ∷ es) fs = ap (λ xs. spawn r action ∷ xs) (visible-append es fs)

Reaches-trans :
    (xs ys : List Event) (u v w : World) → Reaches xs u v → Reaches ys v w → Reaches (xs ++ ys) u w
Reaches-trans xs ys u v w (es, p, x) (fs, q, y) = (
  es ++ fs,
  q ∙ ap (run fs) p ∙ sym (run-append es fs u),
  visible-append es fs ∙ ap (λ zs. zs ++ visible fs) x ∙ ap (λ zs. xs ++ zs) y,
)

on_client-Reaches :
    (f : WebsocketClient Report → WebsocketClient Report × Listener) (w : World)
    → Reaches [] w (on_client f w).0
unfolding on_client
on_client-Reaches f w = Reaches-socket (f w.cluster.ws_client).0 w

begin_rows-Reaches :
    (sync : Bool) (rest : List ModelUpdate → Option (List ModelUpdate))
    (rows : Option (List ModelUpdate)) (w : World)
    → Reaches (rows_events rows) w (begin_rows sync rest rows w).0
unfolding begin_rows begin_update run
begin_rows-Reaches sync rest none w = Reaches-none w
begin_rows-Reaches sync rest (some us) w = (update us ∷ [], refl, refl)

handle_event-Reaches :
    (sync : Bool) (event_type : Option String) (rows : Option (List ModelUpdate)) (w : World)
    → Reaches (meaning (message event_type rows)) w (handle_event sync event_type rows w).0
unfolding handle_event
handle_event-Reaches sync event_type rows w = elim (Bool-cases (event_type == some "init")) [
  | inl e ↦ rw e (begin_rows-Reaches sync (λ us. some us) rows w)
  | inr e ↦ rw e (elim (Bool-cases (event_type == some "update")) [
    | inl f ↦ rw f (begin_rows-Reaches sync (λ us. none) rows w)
    | inr f ↦ rw f (Reaches-none w)
  ])
]

on_message-Reaches :
    (sync : Bool) (d : Decoded) (w : World) → Reaches (meaning d) w (on_message sync d w).0
unfolding on_message
on_message-Reaches sync undecodable w = Reaches-none w
on_message-Reaches sync no_object w = Reaches-none w
on_message-Reaches sync (message event_type rows) w = handle_event-Reaches sync event_type rows w

after_update-Reaches :
    (sync : Bool) (rest : Option (List ModelUpdate)) (w : World)
    → Reaches (rest_events rest) w (after_update sync rest w).0
unfolding after_update run
after_update-Reaches sync none w = Reaches-none w
after_update-Reaches sync (some us) w = (init_end us ∷ [], refl, refl)

gathered-Reaches :
    (sync : Bool) (is : List ℕ) (here : Listener) (k : World → World × Listener) (w : World)
    (xs : List Event)
    → Reaches xs w (k w).0
    → Reaches (if_gathered is w.tasks xs) w (gathered sync is here k w).0
unfolding gathered
gathered-Reaches sync is here k w xs h = elim (Bool-cases (some_failed is w.tasks)) [
  | inl e ↦ rw e (Reaches-none w)
  | inr e ↦ rw e (elim (Bool-cases (all_finished is w.tasks)) [
    | inl f ↦ rw f h
    | inr f ↦ rw f (Reaches-none w)
  ])
]

if_gathered-none : (is : List ℕ) (ts : List Task) → if_gathered is ts [] ≡ []
if_gathered-none is ts = ground arith

-- Nothing is due.
Reaches-nothing : (due : Due) (w : World) → none ≡ due → Reaches (due_events due w.tasks) w w
Reaches-nothing due w h = subst (λ d. Reaches (due_events d w.tasks) w w) h (Reaches-none w)

listener_step-Reaches :
    (l : Listener) (x : Input) (due : Due) (w : World)
    → awaited l ≡ due
    → Reaches (listener_events l x due w) w (listener_step l x w).0
unfolding listener_step
listener_step-Reaches stopped starts_init due w h = on_client-Reaches (try_connect false 0) w
listener_step-Reaches stopped starts_sync due w h =
    on_client-Reaches (λ c. listen_head (start_listening c)) w
listener_step-Reaches (attempting sync n) (attempt_is a) due w h =
    on_client-Reaches (attempt_ends sync n a) w
listener_step-Reaches (pausing sync n) wakes due w h =
    on_client-Reaches (try_connect sync (suc n)) w
listener_step-Reaches (flushing m) (send_is x) due w h = on_client-Reaches (flush_ends m x) w
listener_step-Reaches (receiving sync) (receives d) due w h = on_message-Reaches sync d w
listener_step-Reaches (receiving sync) (receive_stops raised) due w h =
    on_client-Reaches (receive_ends sync raised) w
listener_step-Reaches (updating sync rest is) gathers due w h =
    subst
      (λ d.
        Reaches (due_events d w.tasks) w
          (gathered sync is (updating sync rest is) (after_update sync rest) w).0)
      h
      (gathered-Reaches sync is (updating sync rest is) (after_update sync rest) w
        (rest_events rest) (after_update-Reaches sync rest w))
listener_step-Reaches (removing sync is) gathers due w h =
    subst
      (λ d.
        Reaches (due_events d w.tasks) w
          (gathered sync is (removing sync is) (λ v. (v, handled sync)) w).0)
      h
      (subst (λ xs. Reaches xs w (gathered sync is (removing sync is) (λ v. (v, handled sync)) w).0)
        (if_gathered-none is w.tasks)
        (gathered-Reaches sync is (removing sync is) (λ v. (v, handled sync)) w []
          (Reaches-none w)))
listener_step-Reaches sleeping wakes due w h = on_client-Reaches (λ c. listen_head (cleanup c)) w
listener_step-Reaches stopped gathers due w h = Reaches-nothing due w h
listener_step-Reaches init_failed gathers due w h = Reaches-nothing due w h
listener_step-Reaches (attempting sync n) gathers due w h = Reaches-nothing due w h
listener_step-Reaches (pausing sync n) gathers due w h = Reaches-nothing due w h
listener_step-Reaches (flushing m) gathers due w h = Reaches-nothing due w h
listener_step-Reaches (receiving sync) gathers due w h = Reaches-nothing due w h
listener_step-Reaches sleeping gathers due w h = Reaches-nothing due w h
listener_step-Reaches _ _ due w h = Reaches-none w

sync_step-Reaches :
    (e : SyncEvent) (due : Due) (s : Sync)
    → awaited s.listener ≡ due
    → Reaches (events_of e due s) s.world (sync_step e s).world
      × (awaited (sync_step e s).listener ≡ due_then e due s)
unfolding sync_step run
sync_step-Reaches (listens x) due s h =
    (listener_step-Reaches s.listener x due s.world h, listener_step-due s.listener x s.world due h)
sync_step-Reaches (task_turn i a) due s h = ((turn i a ∷ [], refl, refl), h)
sync_step-Reaches (starts_task r action) due s h = ((spawn r action ∷ [], refl, refl), h)
sync_step-Reaches (writes_counters r failures timeouts cooldown) due s h =
    ((counts r failures timeouts cooldown ∷ [], refl, refl), h)
sync_step-Reaches (connection_is st) due s h = (Reaches-socket _ s.world, h)
sync_step-Reaches disconnects due s h = (Reaches-socket _ s.world, h)

run_sync-Reaches :
    (es : List SyncEvent) (due : Due) (s : Sync)
    → awaited s.listener ≡ due
    → Reaches (events_in es due s) s.world (run_sync es s).world
unfolding run_sync
run_sync-Reaches [] due s h = Reaches-none s.world
run_sync-Reaches (e ∷ es) due s h =
    let (r, h') = sync_step-Reaches e due s h in
    Reaches-trans (events_of e due s) (events_in es (due_then e due s) (sync_step e s)) s.world
      (sync_step e s).world (run_sync es (sync_step e s)).world r
      (run_sync-Reaches es (due_then e due s) (sync_step e s) h')

-- The coroutine does not run yet.
abbrev pub at_rest : World → Sync
at_rest w = record { world = w; listener = stopped }

-- Every run of the listening coroutine beside the tasks of the cluster, with its connection attempts,
-- its messages of any form and its errors, is a history of the cluster: an `init` or `update` message
-- with a list of models is applied once, when it is received, and no other message is. When all
-- tasks that an `init` message has started have finished, the removal of the models that it does not
-- name follows once; it does not follow if one has failed, nor if the update of the message raised an
-- exception, nor for an `update` message. In between are the turns and starts of tasks and the
-- counters as they come, and changes of the connection.
pub sync_refines :
    (es : List SyncEvent) (w : World)
    → Reaches (events_in es none (at_rest w)) w (run_sync es (at_rest w)).world
sync_refines es w = run_sync-Reaches es none (at_rest w) refl
