-- ===== src/Sync/Awaits.antt =====
-- The listening coroutine of websocket_client.py and model_cluster.py waits for what is due.
use model_runner_client.Base.{
  ℕ, suc, ◌-◌, ◌≡◌, refl, sym, ap, subst, ◌∙◌, Bool, false, ◌||◌, Option, none, some, List, [], ◌∷◌,
  ◌++◌, String, Bool-cases, inl, inr, if◌then◌else◌, is_some, arith, length, length-append,
}
use model_runner_client.Base.Eq.{◌==◌, string_equality, option_equality}
use model_runner_client.Websocket.{cleanup}
use model_runner_client.Cluster.{Task}
use model_runner_client.Cluster.Updates.{ModelUpdate, update_model_runs}
use model_runner_client.Cluster.World
use model_runner_client.Cluster.World.{World, update, some_tasks}
use model_runner_client.Sync.{
  Decoded, undecodable, no_object, message, Listener, stopped, init_failed, attempting, pausing,
  flushing, receiving, updating, removing, sleeping, handled, excepted, places, gather,
  begin_update, begin_rows, handle_event, on_message, after_update, gathered, some_failed,
  all_finished,
}
use model_runner_client.Sync.Idle.{
  gathers_left, handled-IsIdle, excepted-IsIdle, try_connect-Idle, attempt_ends-Idle,
  listen_head-Idle, flush_ends-Idle, receive_ends-Idle,
}
use model_runner_client.Sync.Steps.{
  try_connect, listen_head, attempt_ends, flush_ends, receive_ends, Input, starts_init, starts_sync,
  attempt_is, wakes, send_is, receives, receive_stops, gathers, on_client, start_listening,
  listener_step,
}
use model_runner_client.Sync.Due.{
  Due, count_from, started_by, message_due, still_due, due_after, awaited,
}

idle_awaits : (l : Listener) → gathers_left l ≡ 0 → awaited l ≡ none
idle_awaits (updating sync rest is) h = cc
idle_awaits _ h = refl

handled_awaits : (sync : Bool) → awaited (handled sync) ≡ none
handled_awaits sync = idle_awaits (handled sync) (handled-IsIdle sync).1

excepted_awaits : (sync : Bool) → awaited (excepted sync) ≡ none
excepted_awaits sync = idle_awaits (excepted sync) (excepted-IsIdle sync).1

places-count_from : (n : ℕ) (ts : List Task) → places n ts ≡ count_from n (length ts)
places-count_from n [] = refl
places-count_from n (t ∷ ts) = ap (λ is. n ∷ is) (places-count_from (suc n) ts)

added_places :
    (us : List ModelUpdate) (w : World)
    → places (length w.tasks) (some_tasks (update_model_runs us w.cluster).1) ≡ started_by us w
unfolding World.step
added_places us w =
    let ts = some_tasks (update_model_runs us w.cluster).1 in
    let more : length (w.tasks ++ ts) - length w.tasks ≡ length ts =
      omega (arith, length-append w.tasks ts) in
    places-count_from (length w.tasks) ts ∙ ap (count_from (length w.tasks)) (sym more)

gather-updating :
    (sync : Bool) (n : ℕ) (o : Option (List Task)) (rest : Option (List ModelUpdate)) (is : List ℕ)
    → places n (some_tasks o) ≡ is
    → awaited (gather sync n o (updating sync rest)) ≡ (if is_some o then some (rest, is) else none)
unfolding gather
gather-updating sync n none rest is e = excepted_awaits sync
gather-updating sync n (some ts) rest is e = ap (λ is. some (rest, is)) e

begin_update_awaits :
    (sync : Bool) (rest : Option (List ModelUpdate)) (us : List ModelUpdate) (w : World)
    → awaited (begin_update sync rest us w).1
      ≡ (if is_some (update_model_runs us w.cluster).1 then some (rest, started_by us w) else none)
unfolding begin_update
begin_update_awaits sync rest us w =
    gather-updating sync (length w.tasks) (update_model_runs us w.cluster).1 rest (started_by us w)
      (added_places us w)

handle_event_awaits :
    (sync : Bool) (event_type : Option String) (rows : Option (List ModelUpdate)) (w : World)
    → awaited (handle_event sync event_type rows w).1 ≡ message_due (message event_type rows) w
unfolding handle_event begin_rows
handle_event_awaits sync event_type none w = elim (Bool-cases (event_type == some "init")) [
  | inl e ↦ rw e (excepted_awaits sync)
  | inr e ↦ rw e (elim (Bool-cases (event_type == some "update")) [
    | inl f ↦ rw f (excepted_awaits sync)
    | inr f ↦ rw f (handled_awaits sync)
  ])
]
handle_event_awaits sync event_type (some us) w = elim (Bool-cases (event_type == some "init")) [
  | inl e ↦ rw e (begin_update_awaits sync (some us) us w)
  | inr e ↦ rw e (elim (Bool-cases (event_type == some "update")) [
    | inl f ↦ rw f (begin_update_awaits sync none us w)
    | inr f ↦ rw f (handled_awaits sync)
  ])
]

on_message_awaits :
    (sync : Bool) (d : Decoded) (w : World) → awaited (on_message sync d w).1 ≡ message_due d w
unfolding on_message
on_message_awaits sync undecodable w = handled_awaits sync
on_message_awaits sync no_object w = excepted_awaits sync
on_message_awaits sync (message event_type rows) w = handle_event_awaits sync event_type rows w

gather-removing :
    (sync : Bool) (n : ℕ) (o : Option (List Task))
    → awaited (gather sync n o (removing sync)) ≡ none
unfolding gather
gather-removing sync n none = excepted_awaits sync
gather-removing sync n (some ts) = refl

after_update_awaits :
    (sync : Bool) (rest : Option (List ModelUpdate)) (w : World)
    → awaited (after_update sync rest w).1 ≡ none
unfolding after_update
after_update_awaits sync none w = handled_awaits sync
after_update_awaits sync (some us) w = gather-removing sync _ _

gathered_awaits :
    (sync : Bool) (is : List ℕ) (here : Listener) (k : World → World × Listener) (w : World)
    → awaited (k w).1 ≡ none
    → awaited (gathered sync is here k w).1
      ≡ (if some_failed is w.tasks || all_finished is w.tasks then none else awaited here)
unfolding gathered
gathered_awaits sync is here k w h = elim (Bool-cases (some_failed is w.tasks)) [
  | inl e ↦ rw e (excepted_awaits sync)
  | inr e ↦
      rw e (elim (Bool-cases (all_finished is w.tasks)) [ inl f ↦ rw f h | inr f ↦ rw f refl ])
]

removing_awaits :
    (sync : Bool) (is : List ℕ) (w : World)
    → awaited (gathered sync is (removing sync is) (λ v. (v, handled sync)) w).1 ≡ none
removing_awaits sync is w =
    gathered_awaits sync is (removing sync is) (λ v. (v, handled sync)) w (handled_awaits sync)
    ∙ ground arith

-- Nothing is due, and nothing will be.
nothing_due : (due : Due) (w : World) → none ≡ due → none ≡ still_due due w
nothing_due due w h = subst (λ d. none ≡ still_due d w) h refl

-- The coroutine waits for what is due.
pub listener_step-due :
    (l : Listener) (x : Input) (w : World) (due : Due)
    → awaited l ≡ due
    → awaited (listener_step l x w).1 ≡ due_after l x due w
unfolding listener_step on_client
listener_step-due stopped starts_init w due h =
    idle_awaits (try_connect false 0 w.cluster.ws_client).1
      (try_connect-Idle false 0 w.cluster.ws_client).1
    ∙ h
listener_step-due stopped starts_sync w due h =
    idle_awaits (listen_head (start_listening w.cluster.ws_client)).1
      (listen_head-Idle (start_listening w.cluster.ws_client)).1
    ∙ h
listener_step-due (attempting sync n) (attempt_is a) w due h =
    idle_awaits (attempt_ends sync n a w.cluster.ws_client).1
      (attempt_ends-Idle sync n a w.cluster.ws_client).1
    ∙ h
listener_step-due (pausing sync n) wakes w due h =
    idle_awaits (try_connect sync (suc n) w.cluster.ws_client).1
      (try_connect-Idle sync (suc n) w.cluster.ws_client).1
    ∙ h
listener_step-due (flushing m) (send_is x) w due h =
    idle_awaits (flush_ends m x w.cluster.ws_client).1 (flush_ends-Idle m x w.cluster.ws_client).1
    ∙ h
listener_step-due (receiving sync) (receives d) w due h = on_message_awaits sync d w
listener_step-due (receiving sync) (receive_stops raised) w due h =
    idle_awaits (receive_ends sync raised w.cluster.ws_client).1
      (receive_ends-Idle sync raised w.cluster.ws_client).1
    ∙ h
listener_step-due (updating sync rest is) gathers w due h =
    subst
      (λ d.
        awaited (gathered sync is (updating sync rest is) (after_update sync rest) w).1
        ≡ still_due d w)
      h
      (gathered_awaits sync is (updating sync rest is) (after_update sync rest) w
        (after_update_awaits sync rest w))
listener_step-due (removing sync is) gathers w due h =
    removing_awaits sync is w ∙ nothing_due due w h
listener_step-due sleeping wakes w due h =
    idle_awaits (listen_head (cleanup w.cluster.ws_client)).1
      (listen_head-Idle (cleanup w.cluster.ws_client)).1
    ∙ h
listener_step-due stopped gathers w due h = nothing_due due w h
listener_step-due init_failed gathers w due h = nothing_due due w h
listener_step-due (attempting sync n) gathers w due h = nothing_due due w h
listener_step-due (pausing sync n) gathers w due h = nothing_due due w h
listener_step-due (flushing m) gathers w due h = nothing_due due w h
listener_step-due (receiving sync) gathers w due h = nothing_due due w h
listener_step-due sleeping gathers w due h = nothing_due due w h
listener_step-due _ _ w due h = h
