-- ===== src/Cluster/WellFormed.antt =====
-- What a turn of a task of model_cluster.py keeps: the two dictionaries are indexed by the ids of
-- existing runners, and the task speaks of existing runners.
use native.Mathlib.Nat.{le_trans}
use model_runner_client.Base.{◌≤◌, ◌<◌, ◌≡◌, refl, ap, arith}
use model_runner_client.Base.Eq.{nat_equality, string_equality, option_equality}
use model_runner_client.Runner.{ModelRunner, close}
use model_runner_client.Concurrent.{Ref}
use model_runner_client.Cluster.{
  Cluster, After, stop, then_add, then_reconnect, Task, add_scheduled, remove_scheduled,
  report_scheduled, reconnect_scheduled, closing, initializing, sending, finished, failed, store,
  start_remove, remove_entries,
}
use model_runner_client.Cluster.Frame.{
  Extends, Extends-trans, IsIndexed, IsIndexed-Extends, IsIndexed-drop_entry, store-Extends,
}

pub record IsWellFormed (s : Cluster) : Type 0 where
  pub running : IsIndexed s s.models_run
  pub pending : IsIndexed s s.pending_model_runs

abbrev pub AfterIn : Cluster → After → Type 0
AfterIn s stop = Unit
AfterIn s (then_add r caught) = r < s.next
AfterIn s (then_reconnect r) = r < s.next

-- The runners of a task exist.
abbrev pub TaskIn : Cluster → Task → Type 0
TaskIn s (add_scheduled r) = r < s.next
TaskIn s (remove_scheduled r) = r < s.next
TaskIn s (report_scheduled r code reason) = r < s.next
TaskIn s (reconnect_scheduled r) = r < s.next
TaskIn s (closing r k) = (r < s.next) × AfterIn s k
TaskIn s (initializing r p caught) = r < s.next
TaskIn s (sending r report caught) = r < s.next
TaskIn s finished = Unit
TaskIn s (failed e) = Unit

pub AfterIn-mono : (s s' : Cluster) (k : After) → s.next ≤ s'.next → AfterIn s k → AfterIn s' k
AfterIn-mono s s' stop h a = tt
AfterIn-mono s s' (then_add r caught) h a = le_trans a h
AfterIn-mono s s' (then_reconnect r) h a = le_trans a h

pub TaskIn-mono : (s s' : Cluster) (t : Task) → s.next ≤ s'.next → TaskIn s t → TaskIn s' t
TaskIn-mono s s' (add_scheduled r) h a = le_trans a h
TaskIn-mono s s' (remove_scheduled r) h a = le_trans a h
TaskIn-mono s s' (report_scheduled r code reason) h a = le_trans a h
TaskIn-mono s s' (reconnect_scheduled r) h a = le_trans a h
TaskIn-mono s s' (closing r k) h a = (le_trans a.0 h, AfterIn-mono s s' k h a.1)
TaskIn-mono s s' (initializing r p caught) h a = le_trans a h
TaskIn-mono s s' (sending r report caught) h a = le_trans a h
TaskIn-mono s s' finished h a = tt
TaskIn-mono s s' (failed e) h a = tt

-- The result of a turn that began in `s`.
pub record IsGood (s : Cluster) (res : Cluster × Task) : Type 0 where
  pub extends : Extends s res.0
  pub well_formed : IsWellFormed res.0
  pub task_in : TaskIn res.0 res.1

-- A good turn after other changes.
pub IsGood-after :
    (s t : Cluster) (res : Cluster × Task) → Extends s t → IsGood t res → IsGood s res
IsGood-after s t res e g = record {
  extends = Extends-trans e g.extends;
  well_formed = g.well_formed;
  task_in = g.task_in;
}

-- Changes of objects alone.
pub IsWellFormed-store :
    (r : Ref) (m : ModelRunner) (s : Cluster)
    → m.model_id ≡ (s.heap r).model_id
    → IsWellFormed s
    → IsWellFormed (store r m s)
unfolding store
IsWellFormed-store r m s e w = record {
  running = IsIndexed-Extends s (store r m s) s.models_run (store-Extends r m s e) w.running;
  pending =
      IsIndexed-Extends s (store r m s) s.pending_model_runs (store-Extends r m s e) w.pending;
}

pub start_remove-IsGood :
    (r : Ref) (k : After) (s : Cluster)
    → r < s.next
    → AfterIn s k
    → IsWellFormed s
    → IsGood s (start_remove r k s)
unfolding start_remove close
start_remove-IsGood r k s h a w = record {
  extends = store-Extends r (close (s.heap r)) s refl;
  well_formed = IsWellFormed-store r (close (s.heap r)) s refl w;
  task_in = (
    h,
    AfterIn-mono s (store r (close (s.heap r)) s) k
        (store-Extends r (close (s.heap r)) s refl).grows a,
  );
}

pub remove_entries-IsWellFormed :
    (r : Ref) (s : Cluster) → IsWellFormed s → IsWellFormed (remove_entries r s)
unfolding remove_entries
remove_entries-IsWellFormed r s w = record {
  running = IsIndexed-drop_entry s s.models_run (s.heap r).model_id r w.running;
  pending = IsIndexed-drop_entry s s.pending_model_runs (s.heap r).model_id r w.pending;
}

-- A change of fields other than the heap.
pub same_heap-Extends : (s t : Cluster) → t.next ≡ s.next → t.heap ≡ s.heap → Extends s t
same_heap-Extends s t n h = record {
  grows = omega arith;
  same_id = λ r b. ap (λ (f : Ref → ModelRunner). (f r).model_id) h;
}

pub stay-IsGood :
    (s t : Cluster) (task : Task)
    → Extends s t
    → IsWellFormed t
    → TaskIn t task
    → IsGood s (t, task)
stay-IsGood s t task e w i = record { extends = e; well_formed = w; task_in = i }
