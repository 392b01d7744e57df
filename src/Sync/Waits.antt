-- ===== src/Sync/Waits.antt =====
-- The tasks for which the listening coroutine waits exist.
use model_runner_client.Base.{
  ℕ, zero, suc, ◌+◌, ◌≤◌, ◌<◌, ◌≡◌, refl, ap, Bool, false, Option, none, some, List, [], ◌∷◌, ◌++◌,
  Bool-cases, inl, inr, ltb, arith, length, length-append, All, set, get_elem?,
}
use model_runner_client.Base.Eq.{◌==◌, string_equality, option_equality}
use model_runner_client.Websocket.{WebsocketClient, cleanup}
use model_runner_client.Cluster.{Report, Task}
use model_runner_client.Cluster.Coroutines.{Answer, resume}
use model_runner_client.Cluster.Updates.{ModelUpdate, update_model_runs, finish_init_event}
use model_runner_client.Cluster.World
use model_runner_client.Cluster.World.{
  World, Event, turn, update, init_end, spawn, socket, counts, some_tasks, task_of, turn_task,
  new_world,
}
use model_runner_client.Sync.{
  Decoded, undecodable, no_object, message, Listener, stopped, attempting, pausing, flushing,
  receiving, updating, removing, sleeping, handled, excepted, places, gather, begin_update,
  begin_rows, handle_event, on_message, after_update, gathered, some_failed, all_finished,
}
use model_runner_client.Sync.Steps.{
  try_connect, attempt_ends, listen_head, flush_ends, receive_ends, Input, starts_init, starts_sync,
  attempt_is, wakes, send_is, receives, receive_stops, gathers, on_client, start_listening,
  listener_step,
}
use model_runner_client.Sync.Idle.{
  waits_for, IsIdle, Idle, handled-IsIdle, excepted-IsIdle, try_connect-Idle, attempt_ends-Idle,
  listen_head-Idle, flush_ends-Idle, receive_ends-Idle,
}

-- The places are those of tasks.
abbrev pub Exist : List ℕ → List Task → Type 0
Exist is ts = All (λ i. i < length ts) is

pub Exist-mono :
    (is : List ℕ) (ts us : List Task) → length ts ≤ length us → Exist is ts → Exist is us
Exist-mono [] ts us h e = tt
Exist-mono (i ∷ is) ts us h (e, es) = (omega arith, Exist-mono is ts us h es)

places-Exist : (n : ℕ) (ts us : List Task) → n + length ts ≤ length us → Exist (places n ts) us
places-Exist n [] us h = tt
places-Exist n (t ∷ ts) us h = (omega arith, places-Exist (suc n) ts us (omega arith))

length-set : (ts : List Task) (i : ℕ) (t : Task) → length (set ts i t) ≡ length ts
length-set [] i t = refl
length-set (u ∷ ts) zero t = refl
length-set (u ∷ ts) (suc i) t = ap suc (length-set ts i t)

turn_task-grows :
    (i : ℕ) (a : Answer) (o : Option Task) (w : World)
    → length w.tasks ≤ length (turn_task i a o w).tasks
unfolding turn_task
turn_task-grows i a none w = omega arith
turn_task-grows i a (some t) w =
    let h = length-set w.tasks i (resume t a w.cluster).1 in omega arith

pub step-grows : (e : Event) (w : World) → length w.tasks ≤ length (World.step e w).tasks
unfolding World.step
step-grows (turn i a) w = turn_task-grows i a (get_elem? w.tasks i) w
step-grows (update us) w =
    omega (arith, length-append w.tasks (some_tasks (update_model_runs us w.cluster).1))
step-grows (init_end us) w =
    omega (arith, length-append w.tasks (some_tasks (finish_init_event us w.cluster)))
step-grows (spawn r action) w = elim (Bool-cases (ltb r w.cluster.next)) [
  | inl e ↦ rw e (omega (arith, length-append w.tasks (task_of r action ∷ [])))
  | inr e ↦ rw e (omega arith)
]
step-grows (socket c) w = omega arith
step-grows (counts r failures timeouts cooldown) w = omega arith

-- The tasks exist for which the coroutine waits.
abbrev pub AllExist : World × Listener → Type 0
AllExist (w, l) = Exist (waits_for l) w.tasks

idle-AllExist : (w : World) (l : Listener) → IsIdle l → AllExist (w, l)
idle-AllExist w l (e, f) = rw e tt

on_client-AllExist :
    (f : WebsocketClient Report → WebsocketClient Report × Listener) (w : World)
    → Idle (f w.cluster.ws_client)
    → AllExist (on_client f w)
unfolding on_client
on_client-AllExist f w h = idle-AllExist (on_client f w).0 (f w.cluster.ws_client).1 h

gather-AllExist :
    (sync : Bool) (o : Option (List Task)) (k : List ℕ → Listener) (w w' : World)
    → ((is : List ℕ) → waits_for (k is) ≡ is)
    → w'.tasks ≡ w.tasks ++ some_tasks o
    → AllExist (w', gather sync (length w.tasks) o k)
unfolding gather
gather-AllExist sync none k w w' e h = idle-AllExist w' (excepted sync) (excepted-IsIdle sync)
gather-AllExist sync (some ts) k w w' e h = rw (e (places (length w.tasks) ts)) (
    places-Exist (length w.tasks) ts w'.tasks
      (omega (arith, length-append w.tasks ts, ap length h)))

begin_rows-AllExist :
    (sync : Bool) (rest : List ModelUpdate → Option (List ModelUpdate))
    (rows : Option (List ModelUpdate)) (w : World)
    → AllExist (begin_rows sync rest rows w)
unfolding begin_rows begin_update
begin_rows-AllExist sync rest none w = idle-AllExist w (excepted sync) (excepted-IsIdle sync)
begin_rows-AllExist sync rest (some us) w =
    gather-AllExist sync _ (updating sync (rest us)) w (World.step (update us) w) (λ is. refl)
      (unfold World.step in refl)

on_message-AllExist : (sync : Bool) (d : Decoded) (w : World) → AllExist (on_message sync d w)
unfolding on_message handle_event
on_message-AllExist sync undecodable w = idle-AllExist w (handled sync) (handled-IsIdle sync)
on_message-AllExist sync no_object w = idle-AllExist w (excepted sync) (excepted-IsIdle sync)
on_message-AllExist sync (message event_type rows) w =
    elim (Bool-cases (event_type == some "init")) [
      | inl e ↦ rw e (begin_rows-AllExist sync (λ us. some us) rows w)
      | inr e ↦ rw e (elim (Bool-cases (event_type == some "update")) [
        | inl f ↦ rw f (begin_rows-AllExist sync (λ us. none) rows w)
        | inr f ↦ rw f (idle-AllExist w (handled sync) (handled-IsIdle sync))
      ])
    ]

after_update-AllExist :
    (sync : Bool) (rest : Option (List ModelUpdate)) (w : World)
    → AllExist (after_update sync rest w)
unfolding after_update
after_update-AllExist sync none w = idle-AllExist w (handled sync) (handled-IsIdle sync)
after_update-AllExist sync (some us) w =
    gather-AllExist sync _ (removing sync) w (World.step (init_end us) w) (λ is. refl)
      (unfold World.step in refl)

gathered-AllExist :
    (sync : Bool) (is : List ℕ) (here : Listener) (k : World → World × Listener) (w : World)
    → AllExist (w, here)
    → AllExist (k w)
    → AllExist (gathered sync is here k w)
unfolding gathered
gathered-AllExist sync is here k w h j = elim (Bool-cases (some_failed is w.tasks)) [
  | inl e ↦ rw e (idle-AllExist w (excepted sync) (excepted-IsIdle sync))
  | inr e ↦ rw e (elim (Bool-cases (all_finished is w.tasks)) [ inl f ↦ rw f j | inr f ↦ rw f h ])
]

pub listener_step-AllExist :
    (l : Listener) (x : Input) (w : World) → AllExist (w, l) → AllExist (listener_step l x w)
unfolding listener_step
listener_step-AllExist stopped starts_init w h =
    on_client-AllExist (try_connect false 0) w (try_connect-Idle false 0 w.cluster.ws_client)
listener_step-AllExist stopped starts_sync w h =
    on_client-AllExist (λ c. listen_head (start_listening c)) w
      (listen_head-Idle (start_listening w.cluster.ws_client))
listener_step-AllExist (attempting sync n) (attempt_is a) w h =
    on_client-AllExist (attempt_ends sync n a) w (attempt_ends-Idle sync n a w.cluster.ws_client)
listener_step-AllExist (pausing sync n) wakes w h =
    on_client-AllExist (try_connect sync (suc n)) w
      (try_connect-Idle sync (suc n) w.cluster.ws_client)
listener_step-AllExist (flushing m) (send_is x) w h =
    on_client-AllExist (flush_ends m x) w (flush_ends-Idle m x w.cluster.ws_client)
listener_step-AllExist (receiving sync) (receives d) w h = on_message-AllExist sync d w
listener_step-AllExist (receiving sync) (receive_stops raised) w h =
    on_client-AllExist (receive_ends sync raised) w
      (receive_ends-Idle sync raised w.cluster.ws_client)
listener_step-AllExist (updating sync rest is) gathers w h =
    gathered-AllExist sync is (updating sync rest is) (after_update sync rest) w h
      (after_update-AllExist sync rest w)
listener_step-AllExist (removing sync is) gathers w h =
    gathered-AllExist sync is (removing sync is) (λ v. (v, handled sync)) w h
      (idle-AllExist w (handled sync) (handled-IsIdle sync))
listener_step-AllExist sleeping wakes w h =
    on_client-AllExist (λ c. listen_head (cleanup c)) w
      (listen_head-Idle (cleanup w.cluster.ws_client))
listener_step-AllExist _ _ w h = h
