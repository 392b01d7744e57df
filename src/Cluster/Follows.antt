-- ===== src/Cluster/Follows.antt =====
-- What an update of the orchestrator comes to in model_cluster.py: a model that runs joins the cluster, and a
-- model that has stopped leaves it.
use model_runner_client.Base.{
  ◌≡◌, ◌≢◌, refl, sym, ap, subst, ◌∙◌, true, false, none, some, [], ◌∷◌, ◌⊎◌, inl, inr,
}
use model_runner_client.Base.Int.{pos}
use model_runner_client.Base.Eq.{nat_equality, string_equality, option_equality}
use model_runner_client.Base.Eq.{option_beq_iff, ◌==◌}
use model_runner_client.Runner.{Key}
use model_runner_client.Dict
use model_runner_client.Dict.{get-delete}
use model_runner_client.Runner.{ModelRunner, new_runner, close}
use model_runner_client.Runner.Init.{both_open, main_ready}
use model_runner_client.Concurrent.{Ref}
use model_runner_client.Cluster.{
  Cluster, Task, store, allocate, find_model, start_remove, remove_entries, add_scheduled,
  remove_scheduled, initializing, finished,
}
use model_runner_client.Cluster.Coroutines.{
  go, resume, start_add, begin_init, create, model_factory, after_remove,
}
use model_runner_client.Cluster.Updates.{
  ModelUpdate, get_model_id, get_model_name, match_model, connect_model, run_matched,
  update_model_run, update_model_runs, start_created, collect_turn,
}
use model_runner_client.Cluster.Removed.{finish}
use model_runner_client.Cluster.Frame.{drop_entry_self, store_self}
use model_runner_client.Cluster.Smooth.{
  IsOpenInsecure, with_channels, begin_init-opens, connects, connects-adds,
}

-- The runner for a model of an update, in a cluster without credentials.
abbrev pub runner_of : ModelUpdate → ModelRunner
runner_of u = record {
  deployment_id = u.deployment_id;
  model_id = get_model_id u;
  model_name = get_model_name u;
  ip = u.ip;
  port = u.port;
  infos = u.infos;
  retry_backoff_factor = 2;
  grpc_channel = none;
  grpc_health_channel = none;
  closed = false;
  consecutive_failures = 0;
  consecutive_timeouts = 0;
  cooldown_calls_remaining = pos 0;
  secure_credentials = none;
  gateway_credentials = none;
}

connect_model-creates :
    (u : ModelUpdate) (s : Cluster)
    → s.secure_credentials ≡ none
    → s.gateway_credentials ≡ none
    → connect_model u s ≡ some ((allocate (runner_of u) s).0, add_scheduled s.next ∷ [])
unfolding connect_model model_factory new_runner create start_created allocate
connect_model-creates u s x y = rw (x, y) refl

update_starts :
    (u : ModelUpdate) (s : Cluster)
    → u.state ≡ some "RUNNING"
    → find_model (get_model_id u) s ≡ none
    → s.secure_credentials ≡ none
    → s.gateway_credentials ≡ none
    → update_model_runs (u ∷ []) s
      ≡ ((allocate (runner_of u) s).0, some (add_scheduled s.next ∷ []))
unfolding update_model_runs update_model_run run_matched match_model
update_starts u s r f x y =
    rw (r, f, match_model)
      (ap (λ o. collect_turn o s (update_model_runs [])) (connect_model-creates u s x y)
        ∙ (unfold collect_turn in refl))

-- What comes of a task whose `init` has begun, if all goes well.
abbrev Joins : ModelRunner → Ref → Cluster × Task → Type 0
Joins m r res =
    let (t, b) = connects r false res.0 in
    (res.1 ≡ initializing r (main_ready 1) false)
    × (Dict.get m.model_id res.0.pending_model_runs ≡ some r)
    × (b ≡ finished)
    × (Dict.get m.model_id t.models_run ≡ some r)
    × (Dict.get m.model_id t.pending_model_runs ≡ none)
    × (t.heap r ≡ with_channels m)

begin_init-Joins :
    (m : ModelRunner) (r : Ref) (s : Cluster)
    → s.heap r ≡ m
    → IsOpenInsecure m
    → Joins m r (begin_init r false both_open s)
begin_init-Joins m r s e h =
    let same : (s.heap r).model_id ≡ m.model_id = ap (λ x. x.model_id) e in
    let s2 = (begin_init r false both_open s).0 in
    let (a, p, heap, others) = begin_init-opens m.model_id s r false same (rw e h) in
    let heap' : s2.heap r ≡ with_channels m = heap ∙ ap with_channels e in
    let (b, x, y, heaps) = connects-adds m.model_id s2 r false (ap (λ x. x.model_id) heap') p in
    (a, p, b, x, y, heaps r ∙ heap')

allocated : (m : ModelRunner) (s : Cluster) → (allocate m s).0.heap s.next ≡ m
unfolding allocate
allocated m s = store_self s.next m s

start_add-begins :
    (r : Ref) (s : Cluster)
    → find_model (s.heap r).model_id s ≡ none
    → resume (add_scheduled r) (go both_open) s ≡ begin_init r false both_open s
unfolding resume start_add
start_add-begins r s e = rw (e, start_add) refl

new_runner-Joins :
    (m : ModelRunner) (s : Cluster)
    → find_model m.model_id s ≡ none
    → IsOpenInsecure m
    → Joins m s.next (resume (add_scheduled s.next) (go both_open) (allocate m s).0)
unfolding find_model allocate store
new_runner-Joins m s f h =
    let s1 = (allocate m s).0 in
    let e = allocated m s in
    subst (Joins m s.next)
      (sym (start_add-begins s.next s1 (ap (λ x. find_model x.model_id s1) e ∙ f)))
      (begin_init-Joins m s.next s1 e h)

-- A model that an update names as RUNNING, and that the cluster without credentials does not know, joins
-- it if all goes well and nothing comes between: one task is started, in which the model is pending
-- while its runner connects, and afterwards the model is running, and not pending. Its runner has
-- the data of the update, two channels to its address, and clear counters.
pub model_joins :
    (u : ModelUpdate) (s : Cluster)
    → u.state ≡ some "RUNNING"
    → find_model (get_model_id u) s ≡ none
    → s.secure_credentials ≡ none
    → s.gateway_credentials ≡ none
    → let k = get_model_id u in
      let r = s.next in
      let (s1, ts) = update_model_runs (u ∷ []) s in
      let (s2, t2) = resume (add_scheduled r) (go both_open) s1 in
      let (s3, t3) = connects r false s2 in
      (ts ≡ some (add_scheduled r ∷ []))
      × (t2 ≡ initializing r (main_ready 1) false)
      × (Dict.get k s2.pending_model_runs ≡ some r)
      × (t3 ≡ finished)
      × (Dict.get k s3.models_run ≡ some r)
      × (Dict.get k s3.pending_model_runs ≡ none)
      × (s3.heap r ≡ with_channels (runner_of u))
model_joins u s h f x y =
    let starts = update_starts u s h f x y in
    let joins : Joins (runner_of u) s.next
        (resume (add_scheduled s.next) (go both_open) (update_model_runs (u ∷ []) s).0) =
      subst (λ res. Joins (runner_of u) s.next (resume (add_scheduled s.next) (go both_open) res.0))
        (sym starts) (new_runner-Joins (runner_of u) s f (refl, refl, refl)) in
    let (a, p, b, m, n, heap) = joins in (ap (λ res. res.1) starts, a, p, b, m, n, heap)

stop_starts :
    (u : ModelUpdate) (s : Cluster) (r : Ref)
    → (u.state ≡ some "STOPPED") ⊎ (u.state ≡ some "RECOVERING")
    → match_model u s ≡ some r
    → update_model_runs (u ∷ []) s ≡ (s, some (remove_scheduled r ∷ []))
unfolding update_model_runs update_model_run collect_turn
stop_starts u s r (inl e) m = rw (e, m) refl
stop_starts u s r (inr e) m = rw (e, m) refl

holds-match_model :
    (u : ModelUpdate) (s : Cluster) (k : Key) (r : Ref)
    → u.model_id_field ≡ some k
    → (Dict.get k s.models_run ≡ some r)
      ⊎ ((Dict.get k s.models_run ≡ none) × (Dict.get k s.pending_model_runs ≡ some r))
    → u.deployment_id ≡ (s.heap r).deployment_id
    → match_model u s ≡ some r
unfolding match_model
holds-match_model u s k r n held d =
    let found : find_model k s ≡ some r =
      unfold find_model in elim held [ inl e ↦ rw e refl | inr (f, e) ↦ rw (f, e) refl ] in
    let same : (u.deployment_id == (s.heap r).deployment_id) ≡ true =
      (option_beq_iff string_equality u.deployment_id (s.heap r).deployment_id).1 d in
    rw (n, found, same, match_model) refl

pub model_leaves :
    (u : ModelUpdate) (s : Cluster) (k : Key) (r : Ref)
    → (u.state ≡ some "STOPPED") ⊎ (u.state ≡ some "RECOVERING")
    → u.model_id_field ≡ some k
    → (Dict.get k s.models_run ≡ some r)
      ⊎ ((Dict.get k s.models_run ≡ none) × (Dict.get k s.pending_model_runs ≡ some r))
    → u.deployment_id ≡ (s.heap r).deployment_id
    → let t = finish (remove_scheduled r) s in
      (update_model_runs (u ∷ []) s ≡ (s, some (remove_scheduled r ∷ [])))
      × ((t.heap r).closed ≡ true)
      × (Dict.get (s.heap r).model_id t.models_run ≢ some r)
      × (Dict.get (s.heap r).model_id t.pending_model_runs ≢ some r)
unfolding resume start_remove after_remove remove_entries
model_leaves u s k r h n held d =
    let m = holds-match_model u s k r n held d in
    let same = store_self r (close (s.heap r)) s in
    let id : ((store r (close (s.heap r)) s).heap r).model_id ≡ (s.heap r).model_id =
      ap (λ x. x.model_id) same ∙ (unfold close in refl) in
    (
      stop_starts u s r h m,
      ap (λ x. x.closed) same ∙ (unfold close in refl),
      rw id (unfold store in drop_entry_self (s.heap r).model_id r s.models_run),
      rw id (unfold store in drop_entry_self (s.heap r).model_id r s.pending_model_runs),
    )
