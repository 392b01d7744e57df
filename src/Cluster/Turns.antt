-- ===== src/Cluster/Turns.antt =====
-- The turns of model_cluster.py that add, reconnect and resume: each keeps the dictionaries indexed,
-- so every history does.
use native.Mathlib.Nat.{le_refl}
use model_runner_client.Base.{
  ℕ, suc, ◌<◌, ◌≡◌, refl, subst, Bool, true, false, Option, none, some, arith, Option-cases, inl,
  inr, String,
}
use model_runner_client.Base.Eq.{nat_equality, string_equality, option_equality}
use mathlib.Core.Option.{some-injective}
use model_runner_client.Dict
use model_runner_client.Dict.{Dict}
use model_runner_client.Runner.{ModelRunner, Key, Infos}
use model_runner_client.Runner.Init.{InitPoint, Opens, Reply, init_start, init_resume}
use model_runner_client.Runner.Init.Frame.{init_start-SameRunner, init_resume-SameRunner}
use model_runner_client.Concurrent.{Ref}
use model_runner_client.Cluster.{
  Cluster, After, stop, then_add, then_reconnect, Task, add_scheduled, remove_scheduled,
  report_scheduled, reconnect_scheduled, closing, initializing, sending, finished, store, allocate,
  find_model, remove_entries,
}
use model_runner_client.Cluster.Coroutines.{
  raise_in, settle, begin_init, start_add, create, model_factory, add_created, reconnect,
  after_remove, Answer, go, init_reply, sent, resume,
}
use model_runner_client.Cluster.Frame.{
  Extends, Extends-refl, Extends-trans, IsIndexed-Extends, IsIndexed-put, store-Extends,
  allocate-Extends,
}
use model_runner_client.Cluster.WellFormed.{
  IsWellFormed, AfterIn, TaskIn, AfterIn-mono, IsGood, IsGood-after, IsWellFormed-store,
  start_remove-IsGood, remove_entries-IsWellFormed, same_heap-Extends, stay-IsGood,
}
use model_runner_client.Cluster.Settled.{start_report-IsGood, finish_send-IsGood, settle-IsGood}

begin_init-IsGood :
    (r : Ref) (caught : Bool) (opens : Opens) (s : Cluster)
    → r < s.next
    → IsWellFormed s
    → IsGood s (begin_init r caught opens s)
unfolding begin_init
begin_init-IsGood r caught opens s h w =
    let s' = record s {
      pending_model_runs = Dict.put (s.heap r).model_id r s.pending_model_runs;
    } in
    let (m, st) = init_start (s.heap r) opens in
    let e : m.model_id ≡ (s.heap r).model_id = (init_start-SameRunner (s.heap r) opens).model_id in
    let w' : IsWellFormed s' = record {
      running = w.running;
      pending = IsIndexed-put s s.pending_model_runs r h w.pending;
    } in
    let t = store r m s' in
    IsGood-after s t (settle r caught st t)
      (Extends-trans (same_heap-Extends s s' refl refl) (store-Extends r m s' e))
      (settle-IsGood r caught st t h (IsWellFormed-store r m s' e w'))

pub find_model-lt :
    (k : Key) (s : Cluster) (r : Ref) → IsWellFormed s → find_model k s ≡ some r → r < s.next
unfolding find_model
find_model-lt k s r w e = ground (arith, w.running k r, w.pending k r)

start_add-IsGood :
    (r : Ref) (caught : Bool) (opens : Opens) (s : Cluster)
    → r < s.next
    → IsWellFormed s
    → IsGood s (start_add r caught opens s)
unfolding start_add
start_add-IsGood r caught opens s h w = elim (Option-cases (find_model (s.heap r).model_id s)) [
  | inl e ↦ rw (e, start_add) (begin_init-IsGood r caught opens s h w)
  | inr (current, e) ↦
      rw (e, start_add)
        (start_remove-IsGood current (then_add r caught) s
          (find_model-lt (s.heap r).model_id s current w e) h w)
]

pub allocate-IsWellFormed :
    (m : ModelRunner) (s : Cluster) → IsWellFormed s → IsWellFormed (allocate m s).0
unfolding allocate
allocate-IsWellFormed m s w = record {
  running = IsIndexed-Extends s (allocate m s).0 s.models_run (allocate-Extends m s) w.running;
  pending =
      IsIndexed-Extends s (allocate m s).0 s.pending_model_runs (allocate-Extends m s) w.pending;
}

-- A new object is out of the way of the others.
abbrev pub IsNew : Cluster → Cluster × Ref → Type 0
IsNew s res = Extends s res.0 × IsWellFormed res.0 × (res.1 < res.0.next)

create-IsNew :
    (o : Option ModelRunner) (s : Cluster) (res : Cluster × Ref)
    → IsWellFormed s
    → create o s ≡ some res
    → IsNew s res
unfolding create
create-IsNew none s res w e = cc
create-IsNew (some m) s res w e =
    let new : IsNew s (allocate m s) = (
      allocate-Extends m s,
      allocate-IsWellFormed m s w,
      unfold allocate in le_refl (suc s.next),
    ) in
    subst (IsNew s) (some-injective (allocate m s) res e) new

pub model_factory-IsNew :
    (deployment_id model_id : Key) (model_name ip : Option String) (port : Option ℕ)
    (infos : Option Infos) (s : Cluster) (res : Cluster × Ref)
    → IsWellFormed s
    → model_factory deployment_id model_id model_name ip port infos s ≡ some res
    → IsNew s res
unfolding model_factory
model_factory-IsNew deployment_id model_id model_name ip port infos s res w e =
    create-IsNew _ s res w e

add_created-IsGood :
    (o : Option (Cluster × Ref)) (opens : Opens) (s : Cluster)
    → IsWellFormed s
    → ((res : Cluster × Ref) → o ≡ some res → IsNew s res)
    → IsGood s (add_created o opens s)
unfolding add_created raise_in
add_created-IsGood none opens s w new = stay-IsGood s s finished (Extends-refl s) w tt
add_created-IsGood (some (s', r)) opens s w new =
    let (e, w', b) = new (s', r) refl in
    IsGood-after s s' (start_add r true opens s') e (start_add-IsGood r true opens s' b w')

reconnect-IsGood :
    (old : Ref) (opens : Opens) (s : Cluster) → IsWellFormed s → IsGood s (reconnect old opens s)
unfolding reconnect
reconnect-IsGood old opens s w =
    let m = s.heap old in
    let o = model_factory m.deployment_id m.model_id m.model_name m.ip m.port m.infos s in
    add_created-IsGood o opens s w (λ res.
      model_factory-IsNew m.deployment_id m.model_id m.model_name m.ip m.port m.infos s res w)

after_remove-IsGood :
    (k : After) (opens : Opens) (s : Cluster)
    → AfterIn s k
    → IsWellFormed s
    → IsGood s (after_remove k opens s)
unfolding after_remove
after_remove-IsGood stop opens s a w = stay-IsGood s s finished (Extends-refl s) w tt
after_remove-IsGood (then_add r caught) opens s a w = begin_init-IsGood r caught opens s a w
after_remove-IsGood (then_reconnect old) opens s a w = reconnect-IsGood old opens s w

closed-IsGood :
    (r : Ref) (k : After) (opens : Opens) (s : Cluster)
    → AfterIn s k
    → IsWellFormed s
    → IsGood s (after_remove k opens (remove_entries r s))
closed-IsGood r k opens s a w =
    let t = remove_entries r s in
    let e : Extends s t = unfold remove_entries in same_heap-Extends s t refl refl in
    IsGood-after s t (after_remove k opens t) e (
      after_remove-IsGood k opens t (AfterIn-mono s t k e.grows a)
        (remove_entries-IsWellFormed r s w))

initialized-IsGood :
    (r : Ref) (p : InitPoint) (caught : Bool) (x : Reply) (s : Cluster)
    → r < s.next
    → IsWellFormed s
    → let (m, st) = init_resume (s.heap r) p x in IsGood s (settle r caught st (store r m s))
initialized-IsGood r p caught x s h w =
    let (m, st) = init_resume (s.heap r) p x in
    let e : m.model_id ≡ (s.heap r).model_id = (init_resume-SameRunner (s.heap r) p x).model_id in
    IsGood-after s (store r m s) (settle r caught st (store r m s)) (store-Extends r m s e)
      (settle-IsGood r caught st (store r m s) (unfold store in h) (IsWellFormed-store r m s e w))

-- Every turn of every task, whatever its await answers, keeps the dictionaries indexed and its task
-- within the objects that exist.
pub resume-IsGood :
    (t : Task) (a : Answer) (s : Cluster) → TaskIn s t → IsWellFormed s → IsGood s (resume t a s)
unfolding resume
resume-IsGood (add_scheduled r) (go opens) s h w = start_add-IsGood r false opens s h w
resume-IsGood (remove_scheduled r) (go opens) s h w = start_remove-IsGood r stop s h tt w
resume-IsGood (report_scheduled r code reason) (go opens) s h w =
    start_report-IsGood r code reason false s h w
resume-IsGood (reconnect_scheduled r) (go opens) s h w =
    start_remove-IsGood r (then_reconnect r) s h h w
resume-IsGood (closing r k) (go opens) s h w = closed-IsGood r k opens s h.1 w
resume-IsGood (initializing r p caught) (init_reply x) s h w = initialized-IsGood r p caught x s h w
resume-IsGood (sending r report caught) (sent x) s h w = finish_send-IsGood r report caught x s h w
resume-IsGood t _ s h w = stay-IsGood s s t (Extends-refl s) w h
