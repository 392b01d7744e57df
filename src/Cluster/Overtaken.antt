-- ===== src/Cluster/Overtaken.antt =====
-- Two additions of the same model at once in model_cluster.py: one runner is forgotten.
use model_runner_client.Base.{ℕ, ◌≡◌, ◌≢◌, ◌∙◌, ap, Bool, true, none, some, arith}
use model_runner_client.Base.Eq.{nat_equality, string_equality, option_equality, option_beq_iff}
use model_runner_client.Dict
use model_runner_client.Dict.{Dict, get-put, get-delete}
use model_runner_client.Runner.{Key}
use model_runner_client.Runner.Init.{both_open, set_up, main_ready, setting_up, init_resume}
use model_runner_client.Concurrent.{Ref}
use model_runner_client.Cluster.{
  Cluster, store, drop_entry, drop_pending, remove_entries, closing, then_add, initializing,
  finished,
}
use model_runner_client.Cluster.Coroutines.{go, init_reply, resume, settle, after_remove}
use model_runner_client.Runner.{Channel}
use model_runner_client.Base.{false}
use model_runner_client.Cluster.Frame.{key_beq_iff}
use model_runner_client.Cluster.Smooth.{IsOpenInsecure, begin_init-opens, connects, connects-adds}

-- The removal is over, and `init` begins for `r` while `q` is pending.
overwrites :
    (k : Key) (s : Cluster) (old q r : Ref) (c : Bool)
    → (s.heap r).model_id ≡ k
    → q ≢ r
    → IsOpenInsecure (s.heap r)
    → let (t, a) = resume (closing old (then_add r c)) (go both_open) s in
      (a ≡ initializing r (main_ready 1) c)
      × (Dict.get k t.pending_model_runs ≡ some r)
      × (t.heap q ≡ s.heap q)
      × ((t.heap r).model_id ≡ k)
unfolding resume after_remove remove_entries
overwrites k s old q r c e n h =
    let (a, p, same, other) = begin_init-opens k (remove_entries old s) r c e h in
    (a, p, other q n, ap (λ m. m.model_id) same ∙ e)

-- The task of a runner that has been overwritten finishes.
settles :
    (k : Key) (s : Cluster) (q r : Ref) (a : ℕ) (c : Bool)
    → (s.heap q).model_id ≡ k
    → q ≢ r
    → Dict.get k s.pending_model_runs ≡ some r
    → let (t, b) = resume (initializing q (setting_up a) c) (init_reply (set_up true none)) s in
      (b ≡ finished)
      × (Dict.get k t.models_run ≡ some q)
      × (Dict.get k t.pending_model_runs ≡ some r)
      × (t.heap q ≡ s.heap q)
      × ((t.heap r).model_id ≡ (s.heap r).model_id)
unfolding resume settle store init_resume drop_pending drop_entry
settles k s q r a c e n p = ground (
  arith,
  e,
  p,
  get-put k k q s.models_run,
  key_beq_iff k k,
  option_beq_iff nat_equality (some r) (some q),
)

pub overtaken_runner_leaks :
    (k : Key) (s : Cluster) (old q r : Ref) (a : ℕ) (b c : Bool) (main health : Channel)
    → (s.heap q).model_id ≡ k
    → (s.heap r).model_id ≡ k
    → q ≢ r
    → IsOpenInsecure (s.heap r)
    → (s.heap q).closed ≡ false
    → (s.heap q).grpc_channel ≡ some main
    → (s.heap q).grpc_health_channel ≡ some health
    → let (s1, t1) = resume (closing old (then_add r c)) (go both_open) s in
      let (s2, t2) = resume (initializing q (setting_up a) b) (init_reply (set_up true none)) s1 in
      let (s3, t3) = connects r c s2 in
      (t1 ≡ initializing r (main_ready 1) c)
      × (t2 ≡ finished)
      × (Dict.get k s2.models_run ≡ some q)
      × (t3 ≡ finished)
      × (Dict.get k s3.models_run ≡ some r)
      × (Dict.get k s3.pending_model_runs ≡ none)
      × (s3.heap q ≡ s.heap q)
      × ((s3.heap q).closed ≡ false)
      × ((s3.heap q).grpc_channel ≡ some main)
      × ((s3.heap q).grpc_health_channel ≡ some health)
overtaken_runner_leaks k s old q r a b c main health i j n h unclosed m1 h1 =
    let s1 = (resume (closing old (then_add r c)) (go both_open) s).0 in
    let s2 = (resume (initializing q (setting_up a) b) (init_reply (set_up true none)) s1).0 in
    let (t1, p, same, id') = overwrites k s old q r c j n h in
    let (t2, m, p', same', id'') = settles k s1 q r a b (ap (λ m. m.model_id) same ∙ i) n p in
    let (t3, m', p'', same'') = connects-adds k s2 r c (id'' ∙ id') p' in
    let whole = same'' q ∙ same' ∙ same in
    (
      t1,
      t2,
      m,
      t3,
      m',
      p'',
      whole,
      ap (λ x. x.closed) whole ∙ unclosed,
      ap (λ x. x.grpc_channel) whole ∙ m1,
      ap (λ x. x.grpc_health_channel) whole ∙ h1,
    )
