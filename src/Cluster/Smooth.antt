-- ===== src/Cluster/Smooth.antt =====
-- The turns of `add_model_runner` in model_cluster.py for a runner without credentials, when all goes well.
use model_runner_client.Base.{refl, ◌≡◌, ◌≢◌, Bool, true, false, none, some, arith}
use model_runner_client.Base.Eq.{nat_equality, string_equality, option_equality, option_beq_iff}
use model_runner_client.Dict
use model_runner_client.Dict.{Dict, get-put, get-delete}
use model_runner_client.Runner.{ModelRunner, Key, insecure_channel}
use model_runner_client.Runner.Init.{
  both_open, ready, set_up, waiting, main_ready, init_start, init_resume, Reply,
}
use model_runner_client.Concurrent.{Ref}
use model_runner_client.Cluster.{
  Cluster, Task, store, drop_entry, drop_pending, initializing, finished,
}
use model_runner_client.Cluster.Coroutines.{init_reply, resume, settle, begin_init}
use model_runner_client.Cluster.Frame.{key_beq_iff}

abbrev pub IsOpenInsecure : ModelRunner → Type 0
IsOpenInsecure m =
    (m.closed ≡ false) × (m.secure_credentials ≡ none) × (m.gateway_credentials ≡ none)

abbrev pub with_channels : ModelRunner → ModelRunner
with_channels m = record m {
  grpc_channel = some (insecure_channel m.ip m.port);
  grpc_health_channel = some (insecure_channel m.ip m.port);
}

init_start_opens :
    (m : ModelRunner)
    → IsOpenInsecure m
    → init_start m both_open ≡ (with_channels m, waiting (main_ready 1))
unfolding init_start
init_start_opens m (x, y, z) = simp (x, y, z)

-- `add_model_runner` from the assignment to `pending_model_runs`.
pub begin_init-opens :
    (k : Key) (s : Cluster) (r : Ref) (c : Bool)
    → (s.heap r).model_id ≡ k
    → IsOpenInsecure (s.heap r)
    → let (t, a) = begin_init r c both_open s in
      (a ≡ initializing r (main_ready 1) c)
      × (Dict.get k t.pending_model_runs ≡ some r)
      × (t.heap r ≡ with_channels (s.heap r))
      × ((q : Ref) → q ≢ r → t.heap q ≡ s.heap q)
unfolding begin_init settle store
begin_init-opens k s r c e h = (
  ground (arith, init_start_opens (s.heap r) h),
  ground (
    arith,
    init_start_opens (s.heap r) h,
    e,
    get-put k k r s.pending_model_runs,
    key_beq_iff k k,
  ),
  ground (arith, init_start_opens (s.heap r) h),
  λ q n. ground (arith, init_start_opens (s.heap r) h, n),
)

abbrev pub reply : Reply → Cluster × Task → Cluster × Task
reply x (s, t) = resume t (init_reply x) s

-- The turns of a task for which all goes well from the channels on.
abbrev pub connects : Ref → Bool → Cluster → Cluster × Task
connects r c s =
    reply (set_up true none) (reply ready (reply ready (s, initializing r (main_ready 1) c)))

-- From the channels on.
pub connects-adds :
    (k : Key) (s : Cluster) (r : Ref) (c : Bool)
    → (s.heap r).model_id ≡ k
    → Dict.get k s.pending_model_runs ≡ some r
    → let (t, b) = connects r c s in
      (b ≡ finished)
      × (Dict.get k t.models_run ≡ some r)
      × (Dict.get k t.pending_model_runs ≡ none)
      × ((q : Ref) → t.heap q ≡ s.heap q)
unfolding resume settle store init_resume drop_pending drop_entry
connects-adds k s r c e p = (
  refl,
  ground (arith, e, get-put k k r s.models_run, key_beq_iff k k),
  ground (
    arith,
    e,
    p,
    get-delete k k s.pending_model_runs,
    key_beq_iff k k,
    option_beq_iff nat_equality (some r) (some r),
  ),
  λ q. ground arith,
)
