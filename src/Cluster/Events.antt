-- ===== src/Cluster/Events.antt =====
-- The events of the orchestrator keep the dictionaries of model_cluster.py indexed, and so does every
-- history of events and turns, from the constructor on.
use native.Mathlib.Nat.{le_refl}
use model_runner_client.Base.{
  ℕ, ◌<◌, ◌≡◌, refl, Bool, Option, none, some, List, [], ◌∷◌, Bool-cases, inl, inr, ◌⊎◌, ltb,
  ltb→lt, get_elem?, All, All-append, All-set, All-get_elem?,
}
use model_runner_client.Base.Eq.{nat_equality, string_equality, option_equality}
use model_runner_client.Dict
use model_runner_client.Dict.{Dict, get-nil}
use model_runner_client.Credentials.{SecureCredentials, GatewayCredentials}
use model_runner_client.Runner.{ModelRunner, Key}
use model_runner_client.Concurrent.{Ref, Action, process_failure, reconnect_model_runner}
use model_runner_client.Cluster.{Cluster, store, Task}
use model_runner_client.Cluster.Coroutines.{resume, Answer}
use model_runner_client.Cluster.Frame.{IsIndexed-Extends, store-Extends}
use model_runner_client.Cluster.WellFormed.{IsWellFormed, TaskIn}
use model_runner_client.Cluster.Turns.{resume-IsGood}
use model_runner_client.Cluster.Updates.{ModelUpdate, update_model_runs, finish_init_event}
use model_runner_client.Cluster.World.{
  World, Event, turn, update, init_end, spawn, socket, counts, set_counters, some_tasks, task_of,
  turn_task, step, run, new_world,
}
use model_runner_client.Cluster.Rule.{finish_init_event-All}
use model_runner_client.Cluster.Loop.{All-TaskIn-mono, update_model_runs-IsGood}

-- The two dictionaries are indexed, and every task speaks of objects that exist.
pub record IsValid (w : World) : Type 0 where
  pub well_formed : IsWellFormed w.cluster
  pub tasks_in : All (TaskIn w.cluster) w.tasks

finish_init_event-In :
    (us : List ModelUpdate) (s : Cluster)
    → IsWellFormed s
    → All (TaskIn s) (some_tasks (finish_init_event us s))
finish_init_event-In us s w = finish_init_event-All (TaskIn s) us s (λ k r e. (w.running k r e).0)

turn_task-IsValid :
    (i : ℕ) (a : Answer) (o : Option Task) (w : World)
    → IsValid w
    → ((t : Task) → o ≡ some t → TaskIn w.cluster t)
    → IsValid (turn_task i a o w)
unfolding turn_task
turn_task-IsValid i a none w v h = v
turn_task-IsValid i a (some t) w v h =
    let (s, t') = resume t a w.cluster in
    let g = resume-IsGood t a w.cluster (h t refl) v.well_formed in
    record {
      well_formed = g.well_formed;
      tasks_in =
          All-set (TaskIn s) w.tasks i t'
            (All-TaskIn-mono w.cluster s w.tasks g.extends.grows v.tasks_in) g.task_in;
    }

task_of-In : (r : Ref) (action : Action) (s : Cluster) → r < s.next → TaskIn s (task_of r action)
unfolding task_of
task_of-In r (process_failure code reason) s h = h
task_of-In r reconnect_model_runner s h = h

-- Every event keeps the world valid.
pub step-IsValid : (e : Event) (w : World) → IsValid w → IsValid (step e w)
unfolding step
step-IsValid (turn i a) w v =
    turn_task-IsValid i a (get_elem? w.tasks i) w v
      (λ t. All-get_elem? (TaskIn w.cluster) w.tasks i t v.tasks_in)
step-IsValid (update us) w v =
    let (s, ts) = update_model_runs us w.cluster in
    let (e, f, a) = update_model_runs-IsGood us w.cluster v.well_formed in
    record {
      well_formed = f;
      tasks_in =
          All-append (TaskIn s) w.tasks (some_tasks ts)
            (All-TaskIn-mono w.cluster s w.tasks e.grows v.tasks_in) a;
    }
step-IsValid (init_end us) w v = record {
  well_formed = v.well_formed;
  tasks_in =
      All-append (TaskIn w.cluster) w.tasks (some_tasks (finish_init_event us w.cluster)) v.tasks_in
        (finish_init_event-In us w.cluster v.well_formed);
}
step-IsValid (spawn r action) w v = elim (Bool-cases (ltb r w.cluster.next)) [
  | inr e ↦ simp e v
  | inl e ↦ simp e (record {
    well_formed = v.well_formed;
    tasks_in =
        All-append (TaskIn w.cluster) w.tasks (task_of r action ∷ []) v.tasks_in
          (task_of-In r action w.cluster (ltb→lt _ _ e), tt);
  })
]
step-IsValid (socket c) w v = record {
  well_formed = record { running = v.well_formed.running; pending = v.well_formed.pending };
  tasks_in =
      All-TaskIn-mono w.cluster (record w.cluster { ws_client = c }) w.tasks (le_refl _) v.tasks_in;
}
step-IsValid (counts r failures timeouts cooldown) w v =
    let m = set_counters failures timeouts cooldown (w.cluster.heap r) in
    let e = store-Extends r m w.cluster refl in
    let s = store r m w.cluster in
    record {
      well_formed = record {
        running = IsIndexed-Extends w.cluster s w.cluster.models_run e v.well_formed.running;
        pending =
            IsIndexed-Extends w.cluster s w.cluster.pending_model_runs e v.well_formed.pending;
      };
      tasks_in = All-TaskIn-mono w.cluster s w.tasks e.grows v.tasks_in;
    }

pub run-IsValid : (es : List Event) (w : World) → IsValid w → IsValid (run es w)
unfolding run
run-IsValid [] w v = v
run-IsValid (e ∷ es) w v = run-IsValid es (step e w) (step-IsValid e w v)

pub new_world-IsValid :
    (blank : ModelRunner) (report_failure : Bool) (secure : Option SecureCredentials)
    (gateway : Option GatewayCredentials)
    → IsValid (new_world blank report_failure secure gateway)
unfolding new_world
new_world-IsValid blank report_failure secure gateway = record {
  well_formed = record {
    running = λ k r e. cc (get-nil {V = Ref} k);
    pending = λ k r e. cc (get-nil {V = Ref} k);
  };
  tasks_in = tt;
}

-- The runner is held under this key.
abbrev pub Holds : Key → Ref → Cluster → Type 0
Holds k r s = (Dict.get k s.models_run ≡ some r) ⊎ (Dict.get k s.pending_model_runs ≡ some r)

-- After any history of events from the orchestrator, of tasks that concurrent calls start and of
-- counters that they write, of changes of the connection, and of turns of the tasks in any order,
-- every entry of `models_run` and of `pending_model_runs` is a runner that was created and stands
-- under its own model id.
pub models_indexed :
    (es : List Event) (blank : ModelRunner) (report_failure : Bool)
    (secure : Option SecureCredentials) (gateway : Option GatewayCredentials) (k : Key) (r : Ref)
    → Holds k r (run es (new_world blank report_failure secure gateway)).cluster
    → let s = (run es (new_world blank report_failure secure gateway)).cluster in
      (r < s.next) × ((s.heap r).model_id ≡ k)
models_indexed es blank report_failure secure gateway k r (inl e) =
    (run-IsValid es _ (new_world-IsValid blank report_failure secure gateway)).well_formed.running k
      r e
models_indexed es blank report_failure secure gateway k r (inr e) =
    (run-IsValid es _ (new_world-IsValid blank report_failure secure gateway)).well_formed.pending k
      r e
