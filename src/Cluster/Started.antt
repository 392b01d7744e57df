-- ===== src/Cluster/Started.antt =====
-- The tasks that the events of model_cluster.py start: coroutines that are scheduled.
use model_runner_client.Base.{◌≡◌, refl, Bool, true, false, List, ◌++◌, All, All-append}
use model_runner_client.Base.Eq.{nat_equality, string_equality, option_equality}
use model_runner_client.Concurrent.{Ref, Action, process_failure, reconnect_model_runner}
use model_runner_client.Cluster.{
  Cluster, Task, add_scheduled, remove_scheduled, report_scheduled, reconnect_scheduled,
}
use model_runner_client.Cluster.Updates.{ModelUpdate, update_model_runs, finish_init_event}
use model_runner_client.Cluster.Rule.{IsLoopRule, update_model_runs-holds, finish_init_event-All}
use model_runner_client.Cluster.World.{some_tasks, task_of}

abbrev pub is_scheduled : Task → Bool
is_scheduled (add_scheduled r) = true
is_scheduled (remove_scheduled r) = true
is_scheduled (report_scheduled r code reason) = true
is_scheduled (reconnect_scheduled r) = true
is_scheduled t = false

abbrev pub Scheduled : List Task → Type 0
Scheduled = All (λ t. is_scheduled t ≡ true)

Scheduled-append : (ts ts' : List Task) → Scheduled ts → Scheduled ts' → Scheduled (ts ++ ts')
Scheduled-append ts ts' a b = All-append (λ t. is_scheduled t ≡ true) ts ts' a b

LoopStarts-rule : IsLoopRule (λ s s' ts. Scheduled ts)
LoopStarts-rule = record {
  stays = λ s. tt;
  removes = λ u s r e. (refl, tt);
  updates = λ u s r. tt;
  creates = λ u s s' r e. (refl, tt);
  goes_on = λ s t u ts us a b. Scheduled-append ts us a b;
  drops = λ s t ts a. tt;
}

pub update_model_runs-Scheduled :
    (us : List ModelUpdate) (s : Cluster) → Scheduled (some_tasks (update_model_runs us s).1)
update_model_runs-Scheduled = update_model_runs-holds _ LoopStarts-rule

pub finish_init_event-Scheduled :
    (us : List ModelUpdate) (s : Cluster) → Scheduled (some_tasks (finish_init_event us s))
finish_init_event-Scheduled us s =
    finish_init_event-All (λ t. is_scheduled t ≡ true) us s (λ k r e. refl)

pub task_of-Scheduled : (r : Ref) (action : Action) → is_scheduled (task_of r action) ≡ true
unfolding task_of
task_of-Scheduled r (process_failure code reason) = refl
task_of-Scheduled r reconnect_model_runner = refl
