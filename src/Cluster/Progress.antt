-- ===== src/Cluster/Progress.antt =====
-- How many turns a task of model_cluster.py takes.
use model_runner_client.Base.{
  ℕ, ◌+◌, ◌≤◌, ◌<◌, Bool, true, false, Option, none, some, arith, Bool-cases, Option-cases, inl,
  inr, if◌then◌else◌, String,
}
use model_runner_client.Base.Eq.{nat_equality, string_equality, option_equality}
use model_runner_client.Runner.{ErrorType, Exception}
use model_runner_client.Runner.Init.{
  InitPoint, Opens, Reply, InitState, waiting, returned, raises, init_start, init_resume,
}
use model_runner_client.Runner.Init.Bounded.{
  fits, measure, InRange, init_start-measure, init_resume-measure, init_resume-unfit,
}
use model_runner_client.Websocket.{SocketError, try_send}
use model_runner_client.Concurrent.{Ref, FailureCode, multiple_failed, connection_failed}
use model_runner_client.Cluster.{
  Report, Cluster, After, Task, store, find_model, start_remove, drop_pending, remove_entries, stop,
  then_add, then_reconnect, add_scheduled, remove_scheduled, report_scheduled, reconnect_scheduled,
  closing, initializing, sending, finished, failed,
}
use model_runner_client.Cluster.Coroutines.{
  start_send, start_report, raise_in, after_send, finish_send, report_init_failure, settle,
  begin_init, start_add, add_created, reconnect, after_remove, model_factory, Answer, go,
  init_reply, sent, resume,
}

-- The answers that the await of a task can give.
abbrev pub suits : Task → Answer → Bool
suits (add_scheduled r) (go opens) = true
suits (remove_scheduled r) (go opens) = true
suits (report_scheduled r code reason) (go opens) = true
suits (reconnect_scheduled r) (go opens) = true
suits (closing r k) (go opens) = true
suits (initializing r p caught) (init_reply x) = fits p x
suits (sending r report caught) (sent x) = true
suits t a = false

-- The turns that a task can still take, in the worst case.
abbrev pub task_turns : Task → ℕ
task_turns (add_scheduled r) = 34
task_turns (remove_scheduled r) = 2
task_turns (report_scheduled r code reason) = 3
task_turns (reconnect_scheduled r) = 35
task_turns (closing r stop) = 1
task_turns (closing r (then_add q caught)) = 33
task_turns (closing r (then_reconnect q)) = 34
task_turns (initializing r p caught) = measure (waiting p) + 2
task_turns (sending r report caught) = 2
task_turns finished = 0
task_turns (failed e) = 0

-- The attempt that the task makes is one of the five of `init`.
abbrev pub IsTask : Task → Type 0
IsTask (initializing r p caught) = InRange (waiting p)
IsTask t = Unit

abbrev Has : ℕ → Task → Type 0
Has n t = IsTask t × (task_turns t ≤ n)

raise_in-Has : (caught : Bool) (e : Exception) → Has 0 (raise_in caught e)
unfolding raise_in
raise_in-Has true e = omega arith
raise_in-Has false e = omega arith

start_send-Has :
    (b : Bool) (r : Ref) (x : Report) (caught : Bool) (s : Cluster)
    → Has 2 (start_send b r x caught s).1
unfolding start_send
start_send-Has true r x caught s = omega arith
start_send-Has false r x caught s = omega arith

start_report-Has :
    (r : Ref) (code : FailureCode) (reason : Option String) (caught : Bool) (s : Cluster)
    → Has 2 (start_report r code reason caught s).1
unfolding start_report
start_report-Has r code reason caught s = elim (Bool-cases s.report_failure) [
  | inl e ↦ simp e (start_send-Has _ r _ caught s)
  | inr e ↦ simp e (omega arith)
]

report_init_failure-Has :
    (e : Option ErrorType) (r : Ref) (caught : Bool) (s : Cluster)
    → Has 2 (report_init_failure e r caught s).1
unfolding report_init_failure
report_init_failure-Has none r caught s = start_report-Has r multiple_failed none caught s
report_init_failure-Has (some ErrorType.aborted) r caught s = omega arith
report_init_failure-Has (some ErrorType.bad_implementation) r caught s =
    start_report-Has r FailureCode.bad_implementation none caught s
report_init_failure-Has (some ErrorType.grpc_connection_failed) r caught s =
    start_report-Has r connection_failed none caught s
report_init_failure-Has (some ErrorType.auth_error) r caught s =
    start_report-Has r connection_failed none caught s
report_init_failure-Has (some ErrorType.failed) r caught s =
    start_report-Has r multiple_failed none caught s

settle-Has :
    (r : Ref) (caught : Bool) (st : InitState) (s : Cluster)
    → InRange st
    → Has (measure st + 2) (settle r caught st s).1
unfolding settle measure
settle-Has r caught (waiting p) s h = (h, omega arith)
settle-Has r caught (returned true e) s h = omega arith
settle-Has r caught (returned false e) s h = report_init_failure-Has e r caught (drop_pending r s)
settle-Has r caught (raises e) s h = let (a, b) = raise_in-Has caught e in (a, omega arith)

begin_init-Has :
    (r : Ref) (caught : Bool) (o : Opens) (s : Cluster) → Has 32 (begin_init r caught o s).1
unfolding begin_init
begin_init-Has r caught o s =
    let (m, st) = init_start (s.heap r) o in
    let (h, n) = init_start-measure (s.heap r) o in
    let (a, b) = settle-Has r caught st _ h in (a, omega arith)

start_add-Has :
    (r : Ref) (caught : Bool) (o : Opens) (s : Cluster) → Has 33 (start_add r caught o s).1
unfolding start_add start_remove
start_add-Has r caught o s = elim (Option-cases (find_model (s.heap r).model_id s)) [
  | inl e ↦ let (a, b) = begin_init-Has r caught o s in rw (e, start_add) (a, omega arith)
  | inr (q, e) ↦ rw (e, start_add) (omega arith)
]

add_created-Has :
    (x : Option (Cluster × Ref)) (o : Opens) (s : Cluster) → Has 33 (add_created x o s).1
unfolding add_created raise_in
add_created-Has none o s = omega arith
add_created-Has (some (s', r)) o s = start_add-Has r true o s'

after_remove-Has :
    (r : Ref) (k : After) (o : Opens) (s : Cluster)
    → IsTask (after_remove k o s).1 × (task_turns (after_remove k o s).1 < task_turns (closing r k))
unfolding after_remove reconnect
after_remove-Has r stop o s = omega arith
after_remove-Has r (then_add q caught) o s =
    let (a, b) = begin_init-Has q caught o s in (a, omega arith)
after_remove-Has r (then_reconnect q) o s =
    let m = s.heap q in
    let (a, b) =
      add_created-Has (model_factory m.deployment_id m.model_id m.model_name m.ip m.port m.infos s)
        o s in
    (a, omega arith)

after_send-Has :
    (r : Ref) (caught : Bool) (e : Option SocketError) (s : Cluster)
    → Has 1 (after_send r caught e s).1
unfolding after_send start_remove
after_send-Has r caught none s = omega arith
after_send-Has r caught (some e) s =
    let (a, b) = raise_in-Has caught Exception.other_error in (a, omega arith)

initializing-turns :
    (r : Ref) (p : InitPoint) (caught : Bool) (x : Reply) (s : Cluster)
    → InRange (waiting p)
    → let t = (resume (initializing r p caught) (init_reply x) s).1 in
      IsTask t × ((if fits p x then 1 else 0) + task_turns t ≤ measure (waiting p) + 2)
unfolding resume settle
initializing-turns r p caught x s h =
    let m = (init_resume (s.heap r) p x).0 in
    let st = (init_resume (s.heap r) p x).1 in
    elim (Bool-cases (fits p x)) [
      | inl f ↦
          let (i, n) = init_resume-measure (s.heap r) p x h f in
          let (a, b) = settle-Has r caught st (store r m s) i in (a, rw f (omega arith))
      | inr f ↦ rw (f, init_resume-unfit (s.heap r) p x f) (h, omega arith)
    ]

-- Each turn with an answer that the await can give uses up one of the turns that are left.
pub resume-turns :
    (t : Task) (a : Answer) (s : Cluster)
    → IsTask t
    → IsTask (resume t a s).1
      × ((if suits t a then 1 else 0) + task_turns (resume t a s).1 ≤ task_turns t)
unfolding resume start_remove finish_send
resume-turns (add_scheduled r) (go o) s h =
    let (a, b) = start_add-Has r false o s in (a, omega arith)
resume-turns (remove_scheduled r) (go o) s h = omega arith
resume-turns (report_scheduled r code reason) (go o) s h =
    let (a, b) = start_report-Has r code reason false s in (a, omega arith)
resume-turns (reconnect_scheduled r) (go o) s h = omega arith
resume-turns (closing r k) (go o) s h =
    let (a, b) = after_remove-Has r k o (remove_entries r s) in (a, omega arith)
resume-turns (initializing r p caught) (init_reply x) s h = initializing-turns r p caught x s h
resume-turns (sending r report caught) (sent x) s h =
    let (ws, e) = try_send report x s.ws_client in
    let (a, b) = after_send-Has r caught e (record s { ws_client = ws }) in (a, omega arith)
resume-turns finished a s h = (tt, omega arith)
resume-turns (failed e) a s h = (tt, omega arith)
resume-turns _ _ s h = (h, omega arith)
