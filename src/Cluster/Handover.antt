-- ===== src/Cluster/Handover.antt =====
-- What a turn of a task of model_cluster.py does with the pending entry of the runner that the task
-- initializes.
use model_runner_client.Base.{
  ◌≡◌, refl, sym, ap, ◌∙◌, Bool, true, false, Option, none, some, arith, Bool-cases, inl, inr, ◌⊎◌,
}
use model_runner_client.Base.Eq.{nat_equality, string_equality, option_equality}
use model_runner_client.Dict
use model_runner_client.Dict.{Dict, get-put, get-delete}
use model_runner_client.Runner.{Key}
use model_runner_client.Runner.Init.{InitPoint, Reply, init_resume}
use model_runner_client.Runner.Init.Frame.{init_resume-SameRunner}
use model_runner_client.Websocket.{SocketError, Sending, try_send}
use model_runner_client.Concurrent.{Ref}
use model_runner_client.Cluster.{
  Cluster, Report, stop, then_reconnect, Task, add_scheduled, remove_scheduled, report_scheduled,
  reconnect_scheduled, closing, initializing, sending, store, start_remove, remove_entries,
}
use model_runner_client.Cluster.Coroutines.{
  start_report, after_send, finish_send, settle, start_add, after_remove, Answer, go, init_reply,
  sent, resume,
}
use model_runner_client.Cluster.Frame.{IsIndexed, IsIndexed-Extends, store-Extends}
use model_runner_client.Cluster.WellFormed.{IsWellFormed, TaskIn}
use model_runner_client.Cluster.Pending.{
  initializes, IsClaimed, settle-IsReleased, start_add-IsClaimed, closed-IsClaimed,
  pending-start_report,
}

-- The same for the task that ran: the entries of its own runner are claimed anew or gone.
abbrev pub IsHandedOn : Task → Dict Key Ref → Cluster × Task → Type 0
IsHandedOn t d res =
    (k : Key) (q : Ref)
    → Dict.get k res.0.pending_model_runs ≡ some q
    → (initializes res.1 q ≡ true) ⊎ ((Dict.get k d ≡ some q) × (initializes t q ≡ false))

of_claimed :
    (t : Task) (d : Dict Key Ref) (res : Cluster × Task)
    → ((q : Ref) → initializes t q ≡ false)
    → IsClaimed d res
    → IsHandedOn t d res
of_claimed t d res n c = λ k q e. elim (c k q e) [ inl x ↦ inl x | inr f ↦ inr (f, n q) ]

initialized-IsHandedOn :
    (r : Ref) (p : InitPoint) (caught : Bool) (x : Reply) (s : Cluster)
    → IsIndexed s s.pending_model_runs
    → let (m, st) = init_resume (s.heap r) p x in
      IsHandedOn (initializing r p caught) s.pending_model_runs (settle r caught st (store r m s))
initialized-IsHandedOn r p caught x s i = λ k q e.
    let (m, st) = init_resume (s.heap r) p x in
    let same : m.model_id ≡ (s.heap r).model_id =
      (init_resume-SameRunner (s.heap r) p x).model_id in
    let t = store r m s in
    let i' : IsIndexed t s.pending_model_runs =
      IsIndexed-Extends s t s.pending_model_runs (store-Extends r m s same) i in
    elim (settle-IsReleased r caught st t (unfold store in i') k q e) [
      | inl c ↦ inl c
      | inr (f, n) ↦ inr (unfold store in f, ground (arith, n))
    ]

pending-after_send :
    (r : Ref) (caught : Bool) (error : Option SocketError) (s : Cluster)
    → (after_send r caught error s).0.pending_model_runs ≡ s.pending_model_runs
unfolding after_send
pending-after_send r caught none s = refl
pending-after_send r caught (some e) s = refl

pending-finish_send :
    (r : Ref) (report : Report) (caught : Bool) (x : Sending) (s : Cluster)
    → (finish_send r report caught x s).0.pending_model_runs ≡ s.pending_model_runs
unfolding finish_send
pending-finish_send r report caught x s =
    let (ws, error) = try_send report x s.ws_client in
    pending-after_send r caught error (record s { ws_client = ws })

same-IsClaimed :
    (d : Dict Key Ref) (res : Cluster × Task) → res.0.pending_model_runs ≡ d → IsClaimed d res
same-IsClaimed d res p = λ k q e. inr (ap (Dict.get k) (sym p) ∙ e)

-- A turn of a task hands every pending entry of its runner on, to itself, or removes it.
pub resume-IsHandedOn :
    (t : Task) (a : Answer) (s : Cluster)
    → TaskIn s t
    → IsWellFormed s
    → IsHandedOn t s.pending_model_runs (resume t a s)
unfolding resume
resume-IsHandedOn (add_scheduled r) (go opens) s h w =
    of_claimed (add_scheduled r) s.pending_model_runs (start_add r false opens s) (λ q. refl)
      (start_add-IsClaimed r false opens s h w.pending)
resume-IsHandedOn (remove_scheduled r) (go opens) s h w =
    of_claimed (remove_scheduled r) s.pending_model_runs (start_remove r stop s) (λ q. refl)
      (λ k q e. inr e)
resume-IsHandedOn (report_scheduled r code reason) (go opens) s h w =
    of_claimed (report_scheduled r code reason) s.pending_model_runs
      (start_report r code reason false s) (λ q. refl)
      (same-IsClaimed s.pending_model_runs (start_report r code reason false s)
        (pending-start_report r code reason false s))
resume-IsHandedOn (reconnect_scheduled r) (go opens) s h w =
    of_claimed (reconnect_scheduled r) s.pending_model_runs (start_remove r (then_reconnect r) s)
      (λ q. refl) (λ k q e. inr e)
resume-IsHandedOn (closing r k) (go opens) s h w =
    of_claimed (closing r k) s.pending_model_runs (after_remove k opens (remove_entries r s))
      (λ q. refl) (closed-IsClaimed r k opens s h.1 w)
resume-IsHandedOn (initializing r p caught) (init_reply x) s h w =
    initialized-IsHandedOn r p caught x s w.pending
resume-IsHandedOn (sending r report caught) (sent x) s h w =
    of_claimed (sending r report caught) s.pending_model_runs (finish_send r report caught x s)
      (λ q. refl)
      (same-IsClaimed s.pending_model_runs (finish_send r report caught x s)
        (pending-finish_send r report caught x s))
resume-IsHandedOn t _ s h w =
    λ k q e. elim (Bool-cases (initializes t q)) [ inl b ↦ inl b | inr b ↦ inr (e, b) ]
