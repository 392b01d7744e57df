-- ===== src/Cluster/Ends.antt =====
-- The tasks of model_cluster.py end: how many turns one task takes in a history.
use model_runner_client.Base.{
  ℕ, suc, zero, ◌+◌, ◌≤◌, ◌≡◌, ◌↔◌, refl, Bool, true, false, ◌&&◌, Option, none, some, List, [],
  ◌∷◌, ◌++◌, arith, Bool-cases, inl, inr, if◌then◌else◌, ltb, get_elem?, set, All, All-append,
  All-set, All-get_elem?,
}
use model_runner_client.Base.Eq.{◌==◌, nat_equality}
use model_runner_client.Credentials.{SecureCredentials, GatewayCredentials}
use model_runner_client.Runner.{ModelRunner, other_error}
use model_runner_client.Runner.Init.{probing, backing_off, both_open, woke, raised}
use model_runner_client.Cluster.{
  Cluster, Task, add_scheduled, closing, initializing, sending, finished, failed,
}
use model_runner_client.Cluster.Coroutines.{Answer, go, init_reply, sent, resume}
use model_runner_client.Cluster.Updates.{update_model_runs, finish_init_event}
use model_runner_client.Cluster.World.{
  World, Event, turn, update, init_end, spawn, socket, counts, some_tasks, task_of, turn_task, step,
  run, new_world,
}
use model_runner_client.Cluster.Progress.{suits, task_turns, IsTask, resume-turns}
use model_runner_client.Cluster.Started.{
  is_scheduled, Scheduled, update_model_runs-Scheduled, finish_init_event-Scheduled,
  task_of-Scheduled,
}

abbrev pub is_done : Task → Bool
is_done finished = true
is_done (failed e) = true
is_done t = false

-- Whether the event is a turn that the task `i` can take.
abbrev pub takes : ℕ → Event → World → ℕ
takes i (turn j a) w = elim (get_elem? w.tasks j) [
  | none ↦ 0
  | some t ↦ if i == j && suits t a then 1 else 0
]
takes i e w = 0

-- The turns that the task `i` takes in a history.
abbrev pub turns_taken : ℕ → List Event → World → ℕ
turns_taken i [] w = 0
turns_taken i (e ∷ es) w = takes i e w + turns_taken i es (step e w)

-- What a task can still take, or could take once it is started.
abbrev budget : Option Task → ℕ
budget none = 35
budget (some t) = task_turns t

abbrev AreTasks : List Task → Type 0
AreTasks = All IsTask

scheduled-IsTask : (t : Task) → is_scheduled t ≡ true → IsTask t × (task_turns t ≤ 35)
scheduled-IsTask (initializing r p caught) h = cc
scheduled-IsTask (add_scheduled r) h = omega arith
scheduled-IsTask (closing r k) h = cc
scheduled-IsTask _ h = omega arith

Scheduled-AreTasks : (ts : List Task) → Scheduled ts → AreTasks ts
Scheduled-AreTasks [] h = tt
Scheduled-AreTasks (t ∷ ts) (h, hs) = ((scheduled-IsTask t h).0, Scheduled-AreTasks ts hs)

-- New tasks stand behind the old ones.
budget-append :
    (i : ℕ) (ts ts' : List Task)
    → Scheduled ts'
    → budget (get_elem? (ts ++ ts') i) ≤ budget (get_elem? ts i)
budget-append i [] [] h = omega arith
budget-append zero [] (t ∷ ts') (h, hs) = (scheduled-IsTask t h).1
budget-append (suc i) [] (t ∷ ts') (h, hs) = budget-append i [] ts' hs
budget-append zero (t ∷ ts) ts' h = omega arith
budget-append (suc i) (t ∷ ts) ts' h = budget-append i ts ts' h

budget-set :
    (i j n : ℕ) (ts : List Task) (t t' : Task)
    → get_elem? ts j ≡ some t
    → n + task_turns t' ≤ task_turns t
    → (if i == j then n else 0) + budget (get_elem? (set ts j t') i) ≤ budget (get_elem? ts i)
budget-set i j n [] t t' e h = cc
budget-set zero zero n (u ∷ ts) t t' e h = ground arith
budget-set zero (suc j) n (u ∷ ts) t t' e h = ground arith
budget-set (suc i) zero n (u ∷ ts) t t' e h = ground arith
budget-set (suc i) (suc j) n (u ∷ ts) t t' e h = ground (arith, budget-set i j n ts t t' e h)

-- The tasks are within the attempts of `init`, and the turn is paid from the budget.
abbrev Paid : ℕ → ℕ → World → World → Type 0
Paid i n w w' =
    AreTasks w'.tasks × (n + budget (get_elem? w'.tasks i) ≤ budget (get_elem? w.tasks i))

turn_task-Paid :
    (i j : ℕ) (a : Answer) (o : Option Task) (w : World)
    → get_elem? w.tasks j ≡ o
    → AreTasks w.tasks
    → Paid i
        (elim o [ none ↦ 0 | some t ↦ if i == j && suits t a then 1 else 0 ])
        w
        (turn_task j a o w)
unfolding turn_task
turn_task-Paid i j a none w e v = (v, omega arith)
turn_task-Paid i j a (some t) w e v =
    let (s, t') = resume t a w.cluster in
    let (p, q) = resume-turns t a w.cluster (All-get_elem? IsTask w.tasks j t v e) in
    let b = budget-set i j (if suits t a then 1 else 0) w.tasks t t' e q in
    (All-set IsTask w.tasks j t' v p, ground (arith, b))

append-Paid :
    (i : ℕ) (ts : List Task) (w : World) (s : Cluster)
    → AreTasks w.tasks
    → Scheduled ts
    → Paid i 0 w (record { cluster = s; tasks = w.tasks ++ ts })
append-Paid i ts w s v h =
    let b = budget-append i w.tasks ts h in
    (All-append IsTask w.tasks ts v (Scheduled-AreTasks ts h), omega arith)

step-Paid : (i : ℕ) (e : Event) (w : World) → AreTasks w.tasks → Paid i (takes i e w) w (step e w)
unfolding step
step-Paid i (turn j a) w v = turn_task-Paid i j a (get_elem? w.tasks j) w refl v
step-Paid i (update us) w v =
    append-Paid i (some_tasks (update_model_runs us w.cluster).1) w
      (update_model_runs us w.cluster).0 v (update_model_runs-Scheduled us w.cluster)
step-Paid i (init_end us) w v =
    append-Paid i (some_tasks (finish_init_event us w.cluster)) w w.cluster v
      (finish_init_event-Scheduled us w.cluster)
step-Paid i (spawn r action) w v = elim (Bool-cases (ltb r w.cluster.next)) [
  | inl e ↦
      rw e (append-Paid i (task_of r action ∷ []) w w.cluster v (task_of-Scheduled r action, tt))
  | inr e ↦ rw e (v, omega arith)
]
step-Paid i (socket c) w v = (v, omega arith)
step-Paid i (counts r failures timeouts cooldown) w v = (v, omega arith)

run-Paid :
    (i : ℕ) (es : List Event) (w : World)
    → AreTasks w.tasks
    → Paid i (turns_taken i es w) w (run es w)
unfolding run
run-Paid i [] w v = (v, omega arith)
run-Paid i (e ∷ es) w v =
    let (v', h) = step-Paid i e w v in
    let (v'', g) = run-Paid i es (step e w) v' in (v'', omega arith)

done-suits : (t : Task) (a : Answer) → is_done t ≡ true → suits t a ≡ false
done-suits finished a h = refl
done-suits (failed e) a h = refl
done-suits (closing r k) a h = cc
done-suits _ a h = cc

-- An answer that the await of a task gives in some run.
abbrev some_answer : Task → Answer
some_answer (initializing r (backing_off a) caught) = init_reply (woke both_open)
some_answer (initializing r p caught) = init_reply (raised other_error)
some_answer (sending r report caught) = sent none
some_answer t = go both_open

suits-done : (t : Task) → suits t (some_answer t) ≡ false → is_done t ≡ true
suits-done finished h = refl
suits-done (failed e) h = refl
suits-done (initializing r (probing a) caught) h = cc
suits-done (initializing r _ caught) h = cc
suits-done (closing r k) h = cc
suits-done _ h = cc

-- A task can take no turn exactly if it has finished or failed.
pub done_iff : (t : Task) → (is_done t ≡ true) ↔ ((a : Answer) → suits t a ≡ false)
done_iff t = (λ d a. done-suits t a d, λ n. suits-done t (n (some_answer t)))

-- In any history, a task of the cluster takes 35 turns at most, however its connections and sends
-- end and whatever the other tasks do; and a task that can take no turn has finished or failed.
pub tasks_end :
    (es : List Event) (blank : ModelRunner) (report_failure : Bool)
    (secure : Option SecureCredentials) (gateway : Option GatewayCredentials) (i : ℕ) (t : Task)
    → get_elem? (run es (new_world blank report_failure secure gateway)).tasks i ≡ some t
    → (turns_taken i es (new_world blank report_failure secure gateway) ≤ 35)
      × ((is_done t ≡ true) ↔ ((a : Answer) → suits t a ≡ false))
unfolding new_world
tasks_end es blank report_failure secure gateway i t e =
    let (v, h) = run-Paid i es (new_world blank report_failure secure gateway) tt in
    (omega arith, done_iff t)
