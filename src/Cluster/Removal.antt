-- ===== src/Cluster/Removal.antt =====
-- A runner that is in neither dictionary of model_cluster.py and that no task is about to add stays
-- out, whatever happens later.
use mathlib.Core.Option.{some-injective}
use model_runner_client.Base.{
  ℕ, ◌<◌, ◌≡◌, ◌≢◌, refl, sym, ap, subst, ◌∙◌, Bool, true, false, Option, none, some, arith,
  Option-cases, inl, inr, nat_beq, String,
}
use model_runner_client.Base.Eq.{nat_equality, string_equality, option_equality}
use model_runner_client.Dict
use model_runner_client.Dict.{Dict, get-put, get-delete}
use model_runner_client.Runner.{ModelRunner, Key, Infos}
use model_runner_client.Runner.Init.{Opens, init_start, init_resume}
use model_runner_client.Concurrent.{Ref}
use model_runner_client.Cluster.{
  Cluster, After, stop, then_add, then_reconnect, Task, add_scheduled, remove_scheduled,
  report_scheduled, reconnect_scheduled, closing, initializing, sending, store, allocate,
  find_model, remove_entries,
}
use model_runner_client.Cluster.Coroutines.{
  raise_in, settle, begin_init, start_add, create, model_factory, add_created, reconnect,
  after_remove, Answer, go, init_reply, sent, resume,
}
use model_runner_client.Cluster.Pending.{put-ne}
use model_runner_client.Cluster.Spares.{
  adds, after_adds, IsSpared, IsSpared-from, start_remove-IsSpared, start_report-IsSpared,
  finish_send-IsSpared, settle-IsSpared, ne_beq, get-drop_entry,
}

beq_ne : (r q : Ref) → nat_beq r q ≡ false → q ≢ r
beq_ne r q h e = ground (arith, h)

module _ (q : Ref) where
  begin_init-IsSpared :
      (r : Ref) (caught : Bool) (opens : Opens) (s : Cluster)
      → q ≢ r
      → IsSpared q s (begin_init r caught opens s)
  unfolding begin_init
  begin_init-IsSpared r caught opens s n =
      let j = (s.heap r).model_id in
      let s' = record s { pending_model_runs = Dict.put j r s.pending_model_runs } in
      let (m, st) = init_start (s.heap r) opens in
      let t = store r m s' in
      IsSpared-from q s t (settle r caught st t) (unfold store in λ k e. e)
        (unfold store in λ k e. put-ne j k r q s.pending_model_runs e n)
        (settle-IsSpared q r caught st t n)

  start_add-IsSpared :
      (r : Ref) (caught : Bool) (opens : Opens) (s : Cluster)
      → q ≢ r
      → IsSpared q s (start_add r caught opens s)
  unfolding start_add
  start_add-IsSpared r caught opens s n = elim (Option-cases (find_model (s.heap r).model_id s)) [
    | inl e ↦ rw (e, start_add) (begin_init-IsSpared r caught opens s n)
    | inr (current, e) ↦
        rw (e, start_add) (start_remove-IsSpared q current (then_add r caught) s (ne_beq q r n))
  ]

  -- A new object is none of the old ones, and the dictionaries do not change.
  abbrev pub IsApart : Cluster → Cluster × Ref → Type 0
  IsApart s res =
      (q ≢ res.1)
      × (res.0.models_run ≡ s.models_run)
      × (res.0.pending_model_runs ≡ s.pending_model_runs)

  create-IsApart :
      (o : Option ModelRunner) (s : Cluster) (res : Cluster × Ref)
      → q < s.next
      → create o s ≡ some res
      → IsApart s res
  unfolding create
  create-IsApart none s res h e = cc
  create-IsApart (some m) s res h e =
      let new : IsApart s (allocate m s) =
        unfold allocate in (λ same. omega (arith, same), refl, refl) in
      subst (IsApart s) (some-injective (allocate m s) res e) new

  pub model_factory-IsApart :
      (deployment_id model_id : Key) (model_name ip : Option String) (port : Option ℕ)
      (infos : Option Infos) (s : Cluster) (res : Cluster × Ref)
      → q < s.next
      → model_factory deployment_id model_id model_name ip port infos s ≡ some res
      → IsApart s res
  unfolding model_factory
  model_factory-IsApart deployment_id model_id model_name ip port infos s res h e =
      create-IsApart _ s res h e

  add_created-IsSpared :
      (o : Option (Cluster × Ref)) (opens : Opens) (s : Cluster)
      → ((res : Cluster × Ref) → o ≡ some res → IsApart s res)
      → IsSpared q s (add_created o opens s)
  unfolding add_created raise_in
  add_created-IsSpared none opens s h = record {
    running = λ k e. e;
    pending = λ k e. e;
    task = refl;
  }
  add_created-IsSpared (some (t, r)) opens s h =
      let (n, x, y) = h (t, r) refl in
      IsSpared-from q s t (start_add r true opens t) (λ k e. ap (Dict.get k) (sym x) ∙ e)
        (λ k e. ap (Dict.get k) (sym y) ∙ e) (start_add-IsSpared r true opens t n)

  reconnect-IsSpared :
      (old : Ref) (opens : Opens) (s : Cluster) → q < s.next → IsSpared q s (reconnect old opens s)
  unfolding reconnect
  reconnect-IsSpared old opens s h =
      let m = s.heap old in
      add_created-IsSpared _ opens s (λ res.
        model_factory-IsApart m.deployment_id m.model_id m.model_name m.ip m.port m.infos s res h)

  after_remove-IsSpared :
      (k : After) (opens : Opens) (s : Cluster)
      → q < s.next
      → after_adds k q ≡ false
      → IsSpared q s (after_remove k opens s)
  unfolding after_remove
  after_remove-IsSpared stop opens s h n = record {
    running = λ k e. e;
    pending = λ k e. e;
    task = refl;
  }
  after_remove-IsSpared (then_add r caught) opens s h n =
      begin_init-IsSpared r caught opens s (beq_ne r q n)
  after_remove-IsSpared (then_reconnect old) opens s h n = reconnect-IsSpared old opens s h

  closed-IsSpared :
      (r : Ref) (k : After) (opens : Opens) (s : Cluster)
      → q < s.next
      → after_adds k q ≡ false
      → IsSpared q s (after_remove k opens (remove_entries r s))
  closed-IsSpared r k opens s h n =
      let t = remove_entries r s in
      IsSpared-from q s t (after_remove k opens t)
        (unfold remove_entries in λ j e. get-drop_entry _ j r q s.models_run e)
        (unfold remove_entries in λ j e. get-drop_entry _ j r q s.pending_model_runs e)
        (after_remove-IsSpared k opens t (unfold remove_entries in h) n)

  -- A turn of a task that does not add the runner.
  pub resume-IsSpared :
      (t : Task) (a : Answer) (s : Cluster)
      → q < s.next
      → adds t q ≡ false
      → IsSpared q s (resume t a s)
  unfolding resume
  resume-IsSpared (add_scheduled r) (go opens) s h n =
      start_add-IsSpared r false opens s (beq_ne r q n)
  resume-IsSpared (remove_scheduled r) (go opens) s h n = start_remove-IsSpared q r stop s refl
  resume-IsSpared (report_scheduled r code reason) (go opens) s h n =
      start_report-IsSpared q r code reason false s
  resume-IsSpared (reconnect_scheduled r) (go opens) s h n =
      start_remove-IsSpared q r (then_reconnect r) s refl
  resume-IsSpared (closing r k) (go opens) s h n = closed-IsSpared r k opens s h n
  resume-IsSpared (initializing r p caught) (init_reply x) s h n =
      let (m, st) = init_resume (s.heap r) p x in
      IsSpared-from q s (store r m s) (settle r caught st (store r m s)) (unfold store in λ k e. e)
        (unfold store in λ k e. e) (settle-IsSpared q r caught st (store r m s) (beq_ne r q n))
  resume-IsSpared (sending r report caught) (sent x) s h n =
      finish_send-IsSpared q r report caught x s
  resume-IsSpared t _ s h n = record { running = λ k e. e; pending = λ k e. e; task = n }
