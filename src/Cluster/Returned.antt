-- ===== src/Cluster/Returned.antt =====
-- A runner that is removed while a task of model_cluster.py is in the middle of adding it.
use model_runner_client.Base.{◌≡◌, ◌≢◌, refl, Bool, true, none, some, arith}
use model_runner_client.Base.Eq.{nat_equality, string_equality, option_equality}
use model_runner_client.Dict
use model_runner_client.Dict.{Dict, get-put, get-delete}
use model_runner_client.Runner.{ModelRunner, close}
use model_runner_client.Runner.Init.{Reply, init_resume}
use model_runner_client.Concurrent.{Ref}
use model_runner_client.Cluster.{
  Cluster, Task, remove_scheduled, initializing, finished, store, drop_pending, start_remove,
  remove_entries,
}
use model_runner_client.Cluster.Coroutines.{settle, after_remove, go, init_reply, resume}
use model_runner_client.Cluster.Frame.{key_beq_iff}
use model_runner_client.Dict.{dict_laws}
use model_runner_client.Base.{is_some}
use model_runner_client.Runner.{PeerTlsRsaKey}
use model_runner_client.Runner.Init.{probing, both_open, probed, ready, set_up}
use model_runner_client.Cluster.Frame.{drop_entry_self, store_self}

-- The reply to `init` in a task's turn.
abbrev reply : Reply → Cluster × Task → Cluster × Task
reply x (s, t) = resume t (init_reply x) s

-- The four turns of a task for which all goes well from the TLS probe on.
abbrev pub goes_well : PeerTlsRsaKey → Ref → Bool → Cluster → Cluster × Task
goes_well peer r caught s = reply (set_up true none) (
    reply ready
      (reply ready (reply (probed peer both_open) (s, initializing r (probing 1) caught))))

-- What the four turns do to a runner with secure credentials.
goes_well-adds :
    (peer : PeerTlsRsaKey) (r : Ref) (caught : Bool) (m : ModelRunner) (s : Cluster)
    → s.heap r ≡ m
    → is_some m.secure_credentials ≡ true
    → is_some m.infos ≡ true
    → let (t, k) = goes_well peer r caught s in
      (k ≡ finished)
      × (Dict.get m.model_id t.models_run ≡ some r)
      × ((t.heap r).closed ≡ m.closed)
      × (is_some (t.heap r).grpc_channel ≡ true)
unfolding resume store init_resume settle drop_pending
goes_well-adds peer r caught m s e h i =
    ground
      (arith, e, get-put m.model_id m.model_id r s.models_run, key_beq_iff m.model_id m.model_id)

-- If a runner with secure credentials and infos is removed while its `add_model_runner` is in the TLS probe, and
-- then all goes well with that task, the runner comes back: it stands in `models_run` although
-- `close` was called on it, and it holds a new main channel.
pub removed_runner_returns :
    (s : Cluster) (r : Ref) (peer : PeerTlsRsaKey) (caught : Bool)
    → is_some (s.heap r).secure_credentials ≡ true
    → is_some (s.heap r).infos ≡ true
    → let (s1, t1) = resume (remove_scheduled r) (go both_open) s in
      let (s2, t2) = resume t1 (go both_open) s1 in
      let (s3, t3) = goes_well peer r caught s2 in
      (t2 ≡ finished)
      × (Dict.get (s.heap r).model_id s2.pending_model_runs ≢ some r)
      × (t3 ≡ finished)
      × (Dict.get (s.heap r).model_id s3.models_run ≡ some r)
      × ((s3.heap r).closed ≡ true)
      × (is_some (s3.heap r).grpc_channel ≡ true)
unfolding resume start_remove close remove_entries after_remove store init_resume settle
removed_runner_returns s r peer caught h i =
    let m = close (s.heap r) in
    let same = store_self r m s in
    let s2 = remove_entries r (store r m s) in
    let (a, b, c, d) = goes_well-adds peer r caught m s2 same h i in
    (refl, rw same (drop_entry_self (s.heap r).model_id r s.pending_model_runs), a, b, c, d)
