-- ===== src/Cluster/Reported.antt =====
-- The reports of the tasks of model_cluster.py, in the hands of the WebSocket client: a turn adds those
-- that it hands over, and loses none.
use model_runner_client.Base.{
  ℕ, ◌≡◌, refl, subst, ◌∙◌, Bool, true, false, Option, none, some, Bool-cases, Option-cases, inl,
  inr, String,
}
use model_runner_client.Base.Eq.{nat_equality, string_equality, option_equality}
use model_runner_client.Dict
use model_runner_client.Runner.{ModelRunner, ErrorType}
use model_runner_client.Runner.Init.{
  Opens, InitState, waiting, returned, raises, init_start, init_resume,
}
use model_runner_client.Websocket.{Sending, SocketError, try_send}
use model_runner_client.Websocket.Mail.{Keeps, enqueue-entrust-Keeps, try_send-Keeps}
use model_runner_client.Concurrent.{Ref, FailureCode, multiple_failed, connection_failed}
use model_runner_client.Cluster.{
  Report, Cluster, After, Task, store, allocate, find_model, start_remove, drop_pending,
  remove_entries, stop, then_add, then_reconnect, add_scheduled, remove_scheduled, report_scheduled,
  reconnect_scheduled, closing, initializing, sending,
}
use model_runner_client.Cluster.Coroutines.{
  start_send, start_report, after_send, finish_send, report_init_failure, settle, begin_init,
  start_add, create, add_created, reconnect, after_remove, model_factory, Answer, go, init_reply,
  sent, resume,
}
use model_runner_client.Cluster.Updates.{update_infos}
use model_runner_client.Cluster.Rule.{IsLoopRule, update_model_runs-holds}
use model_runner_client.Cluster.World.{
  World, Event, turn, update, init_end, spawn, socket, counts, turn_task, step,
}
use model_runner_client.Base.{get_elem?, ltb}

-- The change of the client from one state of the cluster to another.
abbrev Onward : Cluster → Cluster × Task → Type 0
Onward s res = Keeps s.ws_client res.0.ws_client

start_remove-Onward : (r : Ref) (k : After) (s : Cluster) → Onward s (start_remove r k s)
unfolding start_remove store
start_remove-Onward r k s = λ hand h. h

start_send-Onward :
    (b : Bool) (r : Ref) (x : Report) (caught : Bool) (s : Cluster)
    → Onward s (start_send b r x caught s)
unfolding start_send start_remove store
start_send-Onward true r x caught s = λ hand h. h
start_send-Onward false r x caught s = enqueue-entrust-Keeps x s.ws_client

start_report-Onward :
    (r : Ref) (code : FailureCode) (reason : Option String) (caught : Bool) (s : Cluster)
    → Onward s (start_report r code reason caught s)
unfolding start_report
start_report-Onward r code reason caught s = elim (Bool-cases s.report_failure) [
  | inl e ↦ simp e (start_send-Onward _ r _ caught s)
  | inr e ↦ simp e (λ hand h. h)
]

report_init_failure-Onward :
    (e : Option ErrorType) (r : Ref) (caught : Bool) (s : Cluster)
    → Onward s (report_init_failure e r caught s)
unfolding report_init_failure
report_init_failure-Onward none r caught s = start_report-Onward r multiple_failed none caught s
report_init_failure-Onward (some ErrorType.aborted) r caught s = λ hand h. h
report_init_failure-Onward (some ErrorType.bad_implementation) r caught s =
    start_report-Onward r FailureCode.bad_implementation none caught s
report_init_failure-Onward (some ErrorType.grpc_connection_failed) r caught s =
    start_report-Onward r connection_failed none caught s
report_init_failure-Onward (some ErrorType.auth_error) r caught s =
    start_report-Onward r connection_failed none caught s
report_init_failure-Onward (some ErrorType.failed) r caught s =
    start_report-Onward r multiple_failed none caught s

settle-Onward :
    (r : Ref) (caught : Bool) (st : InitState) (s : Cluster) → Onward s (settle r caught st s)
unfolding settle drop_pending
settle-Onward r caught (waiting p) s = λ hand h. h
settle-Onward r caught (returned true e) s = λ hand h. h
settle-Onward r caught (returned false e) s =
    report_init_failure-Onward e r caught (drop_pending r s)
settle-Onward r caught (raises e) s = λ hand h. h

begin_init-Onward :
    (r : Ref) (caught : Bool) (o : Opens) (s : Cluster) → Onward s (begin_init r caught o s)
unfolding begin_init store
begin_init-Onward r caught o s =
    let s' = record s {
      pending_model_runs = Dict.put (s.heap r).model_id r s.pending_model_runs;
    } in
    let (m, st) = init_start (s.heap r) o in settle-Onward r caught st (store r m s')

start_add-Onward :
    (r : Ref) (caught : Bool) (o : Opens) (s : Cluster) → Onward s (start_add r caught o s)
unfolding start_add
start_add-Onward r caught o s = elim (Option-cases (find_model (s.heap r).model_id s)) [
  | inl e ↦ rw (e, start_add) (begin_init-Onward r caught o s)
  | inr (q, e) ↦ rw (e, start_add) (start_remove-Onward q (then_add r caught) s)
]

-- The factory does not touch the client.
SameClient : Cluster → Option (Cluster × Ref) → Type 0
SameClient s none = Unit
SameClient s (some (s', r)) = s'.ws_client ≡ s.ws_client

create-SameClient : (o : Option ModelRunner) (s : Cluster) → SameClient s (create o s)
unfolding SameClient create allocate store
create-SameClient none s = tt
create-SameClient (some m) s = refl

add_created-Onward :
    (x : Option (Cluster × Ref)) (o : Opens) (s : Cluster)
    → SameClient s x
    → Onward s (add_created x o s)
unfolding SameClient add_created
add_created-Onward none o s e = λ hand h. h
add_created-Onward (some (s', r)) o s e = rw (← e) (start_add-Onward r true o s')

after_remove-Onward : (k : After) (o : Opens) (s : Cluster) → Onward s (after_remove k o s)
unfolding after_remove reconnect model_factory
after_remove-Onward stop o s = λ hand h. h
after_remove-Onward (then_add q caught) o s = begin_init-Onward q caught o s
after_remove-Onward (then_reconnect q) o s = add_created-Onward _ o s (create-SameClient _ s)

finish_send-Onward :
    (r : Ref) (x : Report) (caught : Bool) (y : Sending) (s : Cluster)
    → Onward s (finish_send r x caught y s)
unfolding finish_send
finish_send-Onward r x caught y s =
    let (ws, e) = try_send x y s.ws_client in
    sent_on r caught e (record s { ws_client = ws }) (try_send-Keeps x y s.ws_client)
  where
    sent_on :
        (r : Ref) (caught : Bool) (e : Option SocketError) (t : Cluster)
        → Keeps s.ws_client t.ws_client
        → Onward s (after_send r caught e t)
    sent_on r caught none t h = h
    sent_on r caught (some e) t h = h

pub resume-Onward : (t : Task) (a : Answer) (s : Cluster) → Onward s (resume t a s)
unfolding resume remove_entries store
resume-Onward (add_scheduled r) (go o) s = start_add-Onward r false o s
resume-Onward (remove_scheduled r) (go o) s = start_remove-Onward r stop s
resume-Onward (report_scheduled r code reason) (go o) s = start_report-Onward r code reason false s
resume-Onward (reconnect_scheduled r) (go o) s = start_remove-Onward r (then_reconnect r) s
resume-Onward (closing r k) (go o) s = after_remove-Onward k o (remove_entries r s)
resume-Onward (initializing r p caught) (init_reply x) s =
    let (m, st) = init_resume (s.heap r) p x in settle-Onward r caught st (store r m s)
resume-Onward (sending r report caught) (sent x) s = finish_send-Onward r report caught x s
resume-Onward _ _ s = λ hand h. h

SameClient-eq :
    (s s' : Cluster) (r : Ref) (o : Option (Cluster × Ref))
    → SameClient s o
    → o ≡ some (s', r)
    → s'.ws_client ≡ s.ws_client
unfolding SameClient
SameClient-eq s s' r o h e = subst (SameClient s) e h

same_client-rule : IsLoopRule (λ s s' ts. s'.ws_client ≡ s.ws_client)
unfolding update_infos store model_factory
same_client-rule = record {
  stays = λ s. refl;
  removes = λ u s r e. refl;
  updates = λ u s r. refl;
  creates = λ u s s' r e. SameClient-eq s s' r _ (create-SameClient _ s) e;
  goes_on = λ s t u ts us a b. b ∙ a;
  drops = λ s t ts a. a;
}

turn_task-Keeps :
    (i : ℕ) (a : Answer) (o : Option Task) (w : World)
    → Keeps w.cluster.ws_client (turn_task i a o w).cluster.ws_client
unfolding turn_task
turn_task-Keeps i a none w = λ hand h. h
turn_task-Keeps i a (some t) w = resume-Onward t a w.cluster

-- Events that are no change of the connection.
abbrev pub IsInside : Event → Type 0
IsInside (socket c) = ⊥
IsInside e = Unit

pub step-Keeps :
    (e : Event) (w : World) → IsInside e → Keeps w.cluster.ws_client (step e w).cluster.ws_client
unfolding step store
step-Keeps (turn i a) w b = turn_task-Keeps i a (get_elem? w.tasks i) w
step-Keeps (update us) w b =
    rw (update_model_runs-holds _ same_client-rule us w.cluster) (λ hand h. h)
step-Keeps (init_end us) w b = λ hand h. h
step-Keeps (spawn r action) w b = elim (Bool-cases (ltb r w.cluster.next)) [
  | inl e ↦ rw e (λ hand h. h)
  | inr e ↦ rw e (λ hand h. h)
]
step-Keeps (counts r failures timeouts cooldown) w b = λ hand h. h
step-Keeps (socket c) w b = absurd b
