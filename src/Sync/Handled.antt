-- ===== src/Sync/Handled.antt =====
-- The handling of a message by websocket_client.py and model_cluster.py comes to its end: the coroutine
-- does not wait for tasks that have ended, or that do not exist.
use model_runner_client.Base.{
  ℕ, zero, suc, ◌≤◌, ◌<◌, ◌≡◌, refl, Bool, true, false, Option, none, some, List, [], ◌∷◌,
  Bool-cases, inl, inr, arith, length, All, get_elem?,
}
use model_runner_client.Base.Eq.{string_equality, option_equality}
use model_runner_client.Credentials.{SecureCredentials, GatewayCredentials}
use model_runner_client.Runner.{ModelRunner}
use model_runner_client.Cluster.{Task, finished, failed, closing}
use model_runner_client.Cluster.Coroutines.{Answer}
use model_runner_client.Cluster.Updates.{ModelUpdate, finish_init_event}
use model_runner_client.Cluster.World
use model_runner_client.Cluster.World.{
  World, Event, turn, update, init_end, spawn, socket, counts, some_tasks, task_of, turn_task,
  new_world,
}
use model_runner_client.Cluster.Progress.{suits}
use model_runner_client.Cluster.Ends.{is_done, done_iff}
use model_runner_client.Sync.{
  Listener, stopped, updating, removing, handled, excepted, gather, after_update, gathered,
  some_failed, all_finished, is_finished, is_failed,
}
use model_runner_client.Sync.Steps.{
  gathers, listener_step, Sync, SyncEvent, listens, task_turn, starts_task, writes_counters,
  connection_is, disconnects, sync_step, run_sync,
}
use model_runner_client.Sync.Refines.{at_rest}
use model_runner_client.Sync.Waits.{Exist, Exist-mono, step-grows, AllExist, listener_step-AllExist}
use model_runner_client.Sync.Idle.{waits_for, gathers_left, IsIdle, handled-IsIdle, excepted-IsIdle}

DoExist : Sync → Type 0
DoExist s = AllExist (s.world, s.listener)

world_step-DoExist :
    (e : Event) (s : Sync) → DoExist s → DoExist (record s { world = World.step e s.world })
unfolding DoExist
world_step-DoExist e s h =
    Exist-mono (waits_for s.listener) s.world.tasks (World.step e s.world).tasks
      (step-grows e s.world) h

sync_step-DoExist : (e : SyncEvent) (s : Sync) → DoExist s → DoExist (sync_step e s)
unfolding sync_step
sync_step-DoExist (listens x) s h = unfold DoExist in listener_step-AllExist s.listener x s.world h
sync_step-DoExist (task_turn i a) s h = world_step-DoExist (turn i a) s h
sync_step-DoExist (starts_task r action) s h = world_step-DoExist (spawn r action) s h
sync_step-DoExist (writes_counters r failures timeouts cooldown) s h =
    world_step-DoExist (counts r failures timeouts cooldown) s h
sync_step-DoExist (connection_is st) s h = world_step-DoExist (socket _) s h
sync_step-DoExist disconnects s h = world_step-DoExist (socket _) s h

run_sync-DoExist : (es : List SyncEvent) (s : Sync) → DoExist s → DoExist (run_sync es s)
unfolding run_sync
run_sync-DoExist [] s h = h
run_sync-DoExist (e ∷ es) s h = run_sync-DoExist es (sync_step e s) (sync_step-DoExist e s h)

-- No task at these places can take a turn.
abbrev pub AreStill : List ℕ → List Task → Type 0
AreStill is ts =
    All (λ i. (t : Task) → get_elem? ts i ≡ some t → (a : Answer) → suits t a ≡ false) is

place : (ts : List Task) (i : ℕ) → i < length ts → (t : Task) × (get_elem? ts i ≡ some t)
place [] i h = absurd (omega arith)
place (t ∷ ts) zero h = (t, refl)
place (t ∷ ts) (suc i) h = place ts i (omega arith)

done-finished :
    (t : Task) → is_done t ≡ true → is_failed (some t) ≡ false → is_finished (some t) ≡ true
done-finished finished d f = refl
done-finished (failed e) d f = cc
done-finished (closing r k) d f = cc
done-finished _ d f = cc

-- Tasks that can take no turn have finished, if none has failed.
still-finished :
    (is : List ℕ) (ts : List Task)
    → Exist is ts
    → AreStill is ts
    → some_failed is ts ≡ false
    → all_finished is ts ≡ true
still-finished [] ts e s f = refl
still-finished (i ∷ is) ts (e, es) (s, ss) f =
    let (t, g) = place ts i e in
    let d : is_done t ≡ true = (done_iff t).1 (s t g) in
    let rest = still-finished is ts es ss in ground (arith, done-finished t d, g, rest)

idle-left : (l : Listener) (n : ℕ) → IsIdle l → gathers_left l ≤ n
idle-left l n (e, f) = omega arith

gathered-left :
    (sync : Bool) (is : List ℕ) (here : Listener) (k : World → World × Listener) (w : World) (n : ℕ)
    → Exist is w.tasks
    → AreStill is w.tasks
    → gathers_left (k w).1 ≤ n
    → gathers_left (gathered sync is here k w).1 ≤ n
unfolding gathered
gathered-left sync is here k w n e s h = elim (Bool-cases (some_failed is w.tasks)) [
  | inl f ↦ rw f (idle-left (excepted sync) n (excepted-IsIdle sync))
  | inr f ↦ rw (f, still-finished is w.tasks e s f) h
]

gather-left :
    (sync : Bool) (n : ℕ) (o : Option (List Task))
    → gathers_left (gather sync n o (removing sync)) ≤ 1
unfolding gather
gather-left sync n none = idle-left (excepted sync) 1 (excepted-IsIdle sync)
gather-left sync n (some ts) = omega arith

after_update-left :
    (sync : Bool) (rest : Option (List ModelUpdate)) (w : World)
    → gathers_left (after_update sync rest w).1 ≤ 1
unfolding after_update
after_update-left sync none w = idle-left (handled sync) 1 (handled-IsIdle sync)
after_update-left sync (some us) w =
    gather-left sync (length w.tasks) (finish_init_event us w.cluster)

gathers-left :
    (l : Listener) (w : World)
    → AllExist (w, l)
    → 0 < gathers_left l
    → AreStill (waits_for l) w.tasks
    → gathers_left (listener_step l gathers w).1 < gathers_left l
unfolding listener_step
gathers-left (updating sync rest is) w e p s =
    let h =
      gathered-left sync is (updating sync rest is) (after_update sync rest) w 1 e s
        (after_update-left sync rest w) in
    omega arith
gathers-left (removing sync is) w e p s =
    let h =
      gathered-left sync is (removing sync is) (λ v. (v, handled sync)) w 0 e s
        (idle-left (handled sync) 0 (handled-IsIdle sync)) in
    omega arith
gathers-left stopped w e p s = absurd (omega arith)
gathers-left _ w e p s = absurd (omega arith)

-- In any run, when the coroutine waits in one of the two `gather`s of an event, and none of the tasks
-- that it waits for can take a turn any more, the `gather` ends, and fewer are left of the event: the
-- handling goes on and comes to its end, with an exception or without.
pub handling_ends :
    (es : List SyncEvent) (blank : ModelRunner) (report_failure : Bool)
    (secure : Option SecureCredentials) (gateway : Option GatewayCredentials)
    → 0
      < gathers_left
          (run_sync es (at_rest (new_world blank report_failure secure gateway))).listener
    → AreStill
        (waits_for (run_sync es (at_rest (new_world blank report_failure secure gateway))).listener)
        (run_sync es (at_rest (new_world blank report_failure secure gateway))).world.tasks
    → let s = run_sync es (at_rest (new_world blank report_failure secure gateway)) in
      gathers_left (sync_step (listens gathers) s).listener < gathers_left s.listener
unfolding sync_step DoExist
handling_ends es blank report_failure secure gateway p still =
    let s = run_sync es (at_rest (new_world blank report_failure secure gateway)) in
    let e = run_sync-DoExist es (at_rest (new_world blank report_failure secure gateway)) tt in
    gathers-left s.listener s.world e p still
