-- ===== src/Cluster/Finality.antt =====
-- Removal over histories of model_cluster.py: a runner that was removed stays out if no task was about
-- to add it.
use native.Mathlib.Nat.{le_trans}
use model_runner_client.Base.{
  ℕ, ◌<◌, ◌≡◌, ◌≢◌, refl, sym, ap, subst, ◌∙◌, false, Option, none, some, List, [], ◌∷◌, Bool-cases,
  inl, inr,
}
use model_runner_client.Base.Eq.{nat_equality, string_equality, option_equality}
use model_runner_client.Dict
use model_runner_client.Dict.{Dict, get-put, get-delete}
use model_runner_client.Runner.{Key}
use model_runner_client.Runner.Init.{Opens}
use model_runner_client.Concurrent.{Action, process_failure, reconnect_model_runner, Ref}
use model_runner_client.Cluster.{stop, Task, closing, finished, remove_entries}
use model_runner_client.Cluster.Coroutines.{after_remove, Answer, go, resume}
use model_runner_client.Cluster.Frame.{drop_entry-gone}
use model_runner_client.Cluster.WellFormed.{TaskIn}
use model_runner_client.Cluster.Turns.{resume-IsGood}
use model_runner_client.Cluster.World.{
  World, Event, turn, update, init_end, spawn, socket, counts, some_tasks, task_of, turn_task, step,
  run,
}
use model_runner_client.Cluster.Updates.{update_model_runs}
use model_runner_client.Cluster.Events.{IsValid, step-IsValid}
use model_runner_client.Cluster.Spares.{adds}
use model_runner_client.Cluster.Removal.{resume-IsSpared}
use model_runner_client.Cluster.Updates.{finish_init_event}
use model_runner_client.Dict.{dict_laws}
use model_runner_client.Cluster.Loop.{update_model_runs-IsGood}
use model_runner_client.Base.{get_elem?, set, All-set, All-get_elem?, ltb}
use model_runner_client.Cluster.Quiet.{
  NoneAdds, NoneAdds-append, update_model_runs-IsApart, finish_init_event-NoneAdds,
}

-- `q` was created, and is in neither dictionary nor about to be added.
record IsAbsent (q : Ref) (w : World) : Type 0 where
  created : q < w.cluster.next
  running : (k : Key) → Dict.get k w.cluster.models_run ≢ some q
  pending : (k : Key) → Dict.get k w.cluster.pending_model_runs ≢ some q
  tasks : NoneAdds q w.tasks

module _ (q : Ref) where
  turn_task-IsAbsent :
      (i : ℕ) (a : Answer) (o : Option Task) (w : World)
      → IsValid w
      → IsAbsent q w
      → ((t : Task) → o ≡ some t → TaskIn w.cluster t)
      → ((t : Task) → o ≡ some t → adds t q ≡ false)
      → IsAbsent q (turn_task i a o w)
  unfolding turn_task
  turn_task-IsAbsent i a none w v b h n = b
  turn_task-IsAbsent i a (some t) w v b h n =
      let (s, t') = resume t a w.cluster in
      let g = resume-IsGood t a w.cluster (h t refl) v.well_formed in
      let p = resume-IsSpared q t a w.cluster b.created (n t refl) in
      record {
        created = le_trans b.created g.extends.grows;
        running = λ k e. b.running k (p.running k e);
        pending = λ k e. b.pending k (p.pending k e);
        tasks = All-set (λ t. adds t q ≡ false) w.tasks i t' b.tasks p.task;
      }

  task_of-adds : (r : Ref) (action : Action) → adds (task_of r action) q ≡ false
  unfolding task_of
  task_of-adds r (process_failure code reason) = refl
  task_of-adds r reconnect_model_runner = refl

  step-IsAbsent : (e : Event) (w : World) → IsValid w → IsAbsent q w → IsAbsent q (step e w)
  unfolding step
  step-IsAbsent (turn i a) w v b =
      turn_task-IsAbsent i a (get_elem? w.tasks i) w v b
        (λ t. All-get_elem? (TaskIn w.cluster) w.tasks i t v.tasks_in)
        (λ t. All-get_elem? (λ t. adds t q ≡ false) w.tasks i t b.tasks)
  step-IsAbsent (update us) w v b =
      let (s, ts) = update_model_runs us w.cluster in
      let (x, y, n) = update_model_runs-IsApart q us w.cluster v.well_formed b.created in
      let (e, f, a) = update_model_runs-IsGood us w.cluster v.well_formed in
      record {
        created = le_trans b.created e.grows;
        running = λ k e. b.running k (ap (Dict.get k) (sym x) ∙ e);
        pending = λ k e. b.pending k (ap (Dict.get k) (sym y) ∙ e);
        tasks = NoneAdds-append q w.tasks (some_tasks ts) b.tasks n;
      }
  step-IsAbsent (init_end us) w v b = record {
    created = b.created;
    running = b.running;
    pending = b.pending;
    tasks =
        NoneAdds-append q w.tasks (some_tasks (finish_init_event us w.cluster)) b.tasks
          (finish_init_event-NoneAdds q us w.cluster);
  }
  step-IsAbsent (spawn r action) w v b = elim (Bool-cases (ltb r w.cluster.next)) [
    | inr e ↦ simp e b
    | inl e ↦ simp e (record {
      created = b.created;
      running = b.running;
      pending = b.pending;
      tasks = NoneAdds-append q w.tasks (task_of r action ∷ []) b.tasks (task_of-adds r action, tt);
    })
  ]
  step-IsAbsent (socket c) w v b = record {
    created = b.created;
    running = b.running;
    pending = b.pending;
    tasks = b.tasks;
  }
  step-IsAbsent (counts r failures timeouts cooldown) w v b = record {
    created = b.created;
    running = b.running;
    pending = b.pending;
    tasks = b.tasks;
  }

  run-IsAbsent : (es : List Event) (w : World) → IsValid w → IsAbsent q w → IsAbsent q (run es w)
  unfolding run
  run-IsAbsent [] w v b = b
  run-IsAbsent (e ∷ es) w v b =
      run-IsAbsent es (step e w) (step-IsValid e w v) (step-IsAbsent e w v b)

closed_turn : ℕ → Ref → Opens → World → World
unfolding remove_entries
closed_turn i r opens w = record {
  cluster = remove_entries r w.cluster;
  tasks = set w.tasks i finished;
}

closed_turn-IsAbsent :
    (i : ℕ) (r : Ref) (opens : Opens) (w : World)
    → IsValid w
    → r < w.cluster.next
    → NoneAdds r w.tasks
    → IsAbsent r (closed_turn i r opens w)
unfolding closed_turn remove_entries
closed_turn-IsAbsent i r opens w v h n = record {
  created = h;
  running =
      λ k e. (drop_entry-gone w.cluster w.cluster.models_run r k r v.well_formed.running e).1 refl;
  pending = λ k e.
      (drop_entry-gone w.cluster w.cluster.pending_model_runs r k r v.well_formed.pending e).1 refl;
  tasks = All-set (λ t. adds t r ≡ false) w.tasks i finished n refl;
}

step-closed_turn :
    (i : ℕ) (r : Ref) (opens : Opens) (w : World)
    → get_elem? w.tasks i ≡ some (closing r stop)
    → step (turn i (go opens)) w ≡ closed_turn i r opens w
unfolding step turn_task resume after_remove closed_turn
step-closed_turn i r opens w e = rw e refl

-- When `remove_model_runner` gets past its await for a runner and nothing follows it, in a state where
-- the dictionaries are indexed, the tasks speak of existing runners and no task is about to add that
-- runner, then the runner is in neither dictionary from there on, whatever events, calls
-- and turns of tasks follow.
pub removal_is_final :
    (w : World) (i : ℕ) (r : Ref) (opens : Opens) (es : List Event) (k : Key)
    → IsValid w
    → get_elem? w.tasks i ≡ some (closing r stop)
    → NoneAdds r w.tasks
    → let s = (run es (step (turn i (go opens)) w)).cluster in
      (Dict.get k s.models_run ≢ some r) × (Dict.get k s.pending_model_runs ≢ some r)
removal_is_final w i r opens es k v e n =
    let h : r < w.cluster.next = (All-get_elem? (TaskIn w.cluster) w.tasks i _ v.tasks_in e).0 in
    let u = step (turn i (go opens)) w in
    let a : IsAbsent r u =
      subst (IsAbsent r) (sym (step-closed_turn i r opens w e))
        (closed_turn-IsAbsent i r opens w v h n) in
    let b = run-IsAbsent r es u (step-IsValid (turn i (go opens)) w v) a in
    (b.running k, b.pending k)
