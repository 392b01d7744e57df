-- ===== src/Cluster/Pending.antt =====
-- Who is responsible for the entries of `pending_model_runs` in model_cluster.py: a turn of a task
-- leaves an entry only to a task that waits in `init` for that runner.
use native.Mathlib.Nat.{le_refl}
use model_runner_client.Base.{
  ℕ, ◌<◌, ◌≡◌, ◌≢◌, refl, sym, ap, subst, ◌∙◌, Bool, true, false, Option, none, some, arith,
  Bool-cases, Option-cases, inl, inr, ◌⊎◌, nat_beq, String,
}
use model_runner_client.Base.Eq.{nat_equality, string_equality, option_equality}
use mathlib.Core.Option.{some-injective}
use model_runner_client.Dict
use model_runner_client.Dict.{Dict, get-put, get-delete}
use model_runner_client.Runner.{ModelRunner, ErrorType, Key, Infos}
use model_runner_client.Runner.Init.{Opens, InitState, waiting, returned, raises, init_start}
use model_runner_client.Runner.Init.Frame.{init_start-SameRunner}
use model_runner_client.Concurrent.{Ref, FailureCode, multiple_failed, connection_failed}
use model_runner_client.Cluster.{
  Cluster, After, stop, then_add, then_reconnect, Task, initializing, store, allocate, drop_pending,
  find_model, start_remove, remove_entries,
}
use model_runner_client.Cluster.Coroutines.{
  start_report, report_init_failure, settle, begin_init, start_add, create, model_factory,
  add_created, reconnect, after_remove,
}
use model_runner_client.Cluster.Frame.{
  IsIndexed, IsIndexed-put, IsIndexed-Extends, drop_entry-gone, store-Extends,
}
use model_runner_client.Cluster.WellFormed.{
  IsWellFormed, AfterIn, AfterIn-mono, remove_entries-IsWellFormed,
}
use model_runner_client.Cluster.Turns.{model_factory-IsNew}

abbrev pub initializes : Task → Ref → Bool
initializes (initializing r p caught) q = nat_beq r q
initializes _ q = false

-- An entry of the result is in the hands of the task, or it was there before.
abbrev pub IsClaimed : Dict Key Ref → Cluster × Task → Type 0
IsClaimed d res =
    (k : Key) (q : Ref)
    → Dict.get k res.0.pending_model_runs ≡ some q
    → (initializes res.1 q ≡ true) ⊎ (Dict.get k d ≡ some q)

-- The same for a task that was responsible for `r`: then it was an entry of another runner.
abbrev pub IsReleased : Ref → Dict Key Ref → Cluster × Task → Type 0
IsReleased r d res =
    (k : Key) (q : Ref)
    → Dict.get k res.0.pending_model_runs ≡ some q
    → (initializes res.1 q ≡ true) ⊎ ((Dict.get k d ≡ some q) × (q ≢ r))

pub pending-start_report :
    (r : Ref) (code : FailureCode) (reason : Option String) (caught : Bool) (s : Cluster)
    → (start_report r code reason caught s).0.pending_model_runs ≡ s.pending_model_runs
unfolding start_report
pending-start_report r code reason caught s = ground arith

pending-report_init_failure :
    (error : Option ErrorType) (r : Ref) (caught : Bool) (s : Cluster)
    → (report_init_failure error r caught s).0.pending_model_runs ≡ s.pending_model_runs
unfolding report_init_failure
pending-report_init_failure (some ErrorType.bad_implementation) r caught s =
    pending-start_report r FailureCode.bad_implementation none caught s
pending-report_init_failure (some ErrorType.aborted) r caught s = refl
pending-report_init_failure (some ErrorType.grpc_connection_failed) r caught s =
    pending-start_report r connection_failed none caught s
pending-report_init_failure (some ErrorType.auth_error) r caught s =
    pending-start_report r connection_failed none caught s
pending-report_init_failure (some ErrorType.failed) r caught s =
    pending-start_report r multiple_failed none caught s
pending-report_init_failure none r caught s = pending-start_report r multiple_failed none caught s

-- The runner's own entry is gone after `drop_pending`.
drop_pending-gone :
    (r : Ref) (s : Cluster) (k : Key) (q : Ref)
    → IsIndexed s s.pending_model_runs
    → Dict.get k (drop_pending r s).pending_model_runs ≡ some q
    → (Dict.get k s.pending_model_runs ≡ some q) × (q ≢ r)
unfolding drop_pending
drop_pending-gone r s k q i e = drop_entry-gone s s.pending_model_runs r k q i e

pub settle-IsReleased :
    (r : Ref) (caught : Bool) (st : InitState) (s : Cluster)
    → IsIndexed s s.pending_model_runs
    → IsReleased r s.pending_model_runs (settle r caught st s)
unfolding settle
settle-IsReleased r caught (waiting p) s i = λ k q e. elim (Bool-cases (nat_beq r q)) [
  | inl b ↦ inl b
  | inr b ↦ inr (e, λ same. ground arith)
]
settle-IsReleased r caught (returned true error) s i = λ k q e. inr (drop_pending-gone r s k q i e)
settle-IsReleased r caught (returned false error) s i = λ k q e. inr (
    drop_pending-gone r s k q i
      (ap (Dict.get k) (sym (pending-report_init_failure error r caught (drop_pending r s))) ∙ e))
settle-IsReleased r caught (raises x) s i = λ k q e. inr (drop_pending-gone r s k q i e)

-- An entry of `d[k] = r` is `r` or was an entry before.
pub put-ne :
    (j k : Key) (r q : Ref) (d : Dict Key Ref)
    → Dict.get k (Dict.put j r d) ≡ some q
    → q ≢ r
    → Dict.get k d ≡ some q
put-ne j k r q d e n = ground (arith, get-put k j r d)

begin_init-IsClaimed :
    (r : Ref) (caught : Bool) (opens : Opens) (s : Cluster)
    → r < s.next
    → IsIndexed s s.pending_model_runs
    → IsClaimed s.pending_model_runs (begin_init r caught opens s)
unfolding begin_init
begin_init-IsClaimed r caught opens s h i = λ k q e.
    let j = (s.heap r).model_id in
    let s' = record s { pending_model_runs = Dict.put j r s.pending_model_runs } in
    let (m, st) = init_start (s.heap r) opens in
    let same : m.model_id ≡ j = (init_start-SameRunner (s.heap r) opens).model_id in
    let t = store r m s' in
    let i' : IsIndexed t t.pending_model_runs =
      IsIndexed-Extends s' t s'.pending_model_runs (store-Extends r m s' same)
        (IsIndexed-put s s.pending_model_runs r h i) in
    elim (settle-IsReleased r caught st t i' k q e) [
      | inl claimed ↦ inl claimed
      | inr (f, n) ↦ inr (put-ne j k r q s.pending_model_runs f n)
    ]

pub start_add-IsClaimed :
    (r : Ref) (caught : Bool) (opens : Opens) (s : Cluster)
    → r < s.next
    → IsIndexed s s.pending_model_runs
    → IsClaimed s.pending_model_runs (start_add r caught opens s)
unfolding start_add
start_add-IsClaimed r caught opens s h i = elim (Option-cases (find_model (s.heap r).model_id s)) [
  | inl e ↦ rw (e, start_add) (begin_init-IsClaimed r caught opens s h i)
  | inr (current, e) ↦ rw (e, start_add) (unfold start_remove in λ k q f. inr f)
]

pending-create :
    (o : Option ModelRunner) (s : Cluster) (res : Cluster × Ref)
    → create o s ≡ some res
    → res.0.pending_model_runs ≡ s.pending_model_runs
unfolding create
pending-create none s res e = cc
pending-create (some m) s res e =
    ap (λ (x : Cluster × Ref). x.0.pending_model_runs) (sym (some-injective (allocate m s) res e))

pub pending-model_factory :
    (deployment_id model_id : Key) (model_name ip : Option String) (port : Option ℕ)
    (infos : Option Infos) (s : Cluster) (res : Cluster × Ref)
    → model_factory deployment_id model_id model_name ip port infos s ≡ some res
    → res.0.pending_model_runs ≡ s.pending_model_runs
unfolding model_factory
pending-model_factory deployment_id model_id model_name ip port infos s res e =
    pending-create _ s res e

add_created-IsClaimed :
    (o : Option (Cluster × Ref)) (opens : Opens) (s : Cluster)
    → ((res : Cluster × Ref)
        → o ≡ some res
        → (res.1 < res.0.next)
          × IsIndexed res.0 res.0.pending_model_runs
          × (res.0.pending_model_runs ≡ s.pending_model_runs))
    → IsClaimed s.pending_model_runs (add_created o opens s)
unfolding add_created
add_created-IsClaimed none opens s h = λ k q e. inr e
add_created-IsClaimed (some (t, r)) opens s h =
    let (b, i, p) = h (t, r) refl in
    subst (λ d. IsClaimed d (start_add r true opens t)) p (start_add-IsClaimed r true opens t b i)

reconnect-IsClaimed :
    (old : Ref) (opens : Opens) (s : Cluster)
    → IsWellFormed s
    → IsClaimed s.pending_model_runs (reconnect old opens s)
unfolding reconnect
reconnect-IsClaimed old opens s w =
    let m = s.heap old in
    let o = model_factory m.deployment_id m.model_id m.model_name m.ip m.port m.infos s in
    add_created-IsClaimed o opens s (λ res e.
      let (x, v, b) =
        model_factory-IsNew m.deployment_id m.model_id m.model_name m.ip m.port m.infos s res w e in
      (
        b,
        v.pending,
        pending-model_factory m.deployment_id m.model_id m.model_name m.ip m.port m.infos s res e,
      ))

after_remove-IsClaimed :
    (k : After) (opens : Opens) (s : Cluster)
    → AfterIn s k
    → IsWellFormed s
    → IsClaimed s.pending_model_runs (after_remove k opens s)
unfolding after_remove
after_remove-IsClaimed stop opens s a w = λ k q e. inr e
after_remove-IsClaimed (then_add r caught) opens s a w =
    begin_init-IsClaimed r caught opens s a w.pending
after_remove-IsClaimed (then_reconnect old) opens s a w = reconnect-IsClaimed old opens s w

pub closed-IsClaimed :
    (r : Ref) (k : After) (opens : Opens) (s : Cluster)
    → AfterIn s k
    → IsWellFormed s
    → IsClaimed s.pending_model_runs (after_remove k opens (remove_entries r s))
closed-IsClaimed r k opens s a w = λ j q e.
    let t = remove_entries r s in
    let w' = remove_entries-IsWellFormed r s w in
    let a' : AfterIn t k = AfterIn-mono s t k (unfold remove_entries in le_refl s.next) a in
    elim (after_remove-IsClaimed k opens t a' w' j q e) [
      | inl c ↦ inl c
      | inr f ↦
          inr
            (unfold remove_entries in (drop_entry-gone s s.pending_model_runs r j q w.pending f).0)
    ]
