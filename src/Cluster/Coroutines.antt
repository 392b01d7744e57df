-- ===== src/Cluster/Coroutines.antt =====
-- The coroutines `process_failure`, `add_model_runner`, `remove_model_runner` and `reconnect_model_runner`
-- of model_cluster.py, from one await to the next.
use model_runner_client.Base.{ℕ, Bool, true, false, Option, none, some, if◌then◌else◌, String}
use model_runner_client.Base.Eq.{nat_equality, string_equality, option_equality}
use model_runner_client.Dict
use model_runner_client.Dict.{Dict}
use model_runner_client.Runner.{
  ModelRunner, ErrorType, Exception, value_error, Key, Infos, new_runner,
}
use model_runner_client.Runner.Init.{
  Opens, Reply, InitState, waiting, returned, raises, init_start, init_resume,
}
use model_runner_client.Websocket.{SocketError, Sending, is_connected, enqueue, entrust, try_send}
use model_runner_client.Concurrent.{Ref, FailureCode, multiple_failed, connection_failed}
use model_runner_client.Cluster.{
  Report, Cluster, After, Task, store, allocate, drop_pending, find_model, start_remove,
  remove_entries, error_msg, stop, then_add, then_reconnect, add_scheduled, remove_scheduled,
  report_scheduled, reconnect_scheduled, closing, initializing, sending, finished, failed,
}

-- `self.ws_client.send_message` up to its await: with no connection the message is queued and
-- `process_failure` goes on at once.
unfoldable pub start_send : Bool → Ref → Report → Bool → Cluster → Cluster × Task
unfolding start_remove enqueue entrust
start_send true r report caught s = (s, sending r report caught)
start_send false r report caught s =
    start_remove r stop (record s { ws_client = enqueue report (entrust report s.ws_client) })

-- `process_failure` up to its first await.
unfoldable pub start_report : Ref → FailureCode → Option String → Bool → Cluster → Cluster × Task
unfolding start_send is_connected
start_report r code reason caught s =
    if s.report_failure
    then start_send (is_connected s.ws_client) r (error_msg (s.heap r) code reason) caught s
    else (s, finished)

-- An exception that leaves the coroutine, or that is caught and logged.
unfoldable pub raise_in : Bool → Exception → Task
raise_in true e = finished
raise_in false e = failed e

-- `process_failure` after `send_message`.
unfoldable pub after_send : Ref → Bool → Option SocketError → Cluster → Cluster × Task
unfolding start_remove raise_in
after_send r caught none s = start_remove r stop s
after_send r caught (some e) s = (s, raise_in caught Exception.other_error)

unfoldable pub finish_send : Ref → Report → Bool → Sending → Cluster → Cluster × Task
unfolding after_send try_send
finish_send r report caught x s =
    let (ws, error) = try_send report x s.ws_client in
    after_send r caught error (record s { ws_client = ws })

-- The branches of `add_model_runner` on the error of an `init` that did not succeed.
unfoldable pub report_init_failure : Option ErrorType → Ref → Bool → Cluster → Cluster × Task
unfolding start_report
report_init_failure (some ErrorType.bad_implementation) r caught s =
    start_report r FailureCode.bad_implementation none caught s
report_init_failure (some ErrorType.aborted) r caught s = (s, finished)
report_init_failure (some ErrorType.grpc_connection_failed) r caught s =
    start_report r connection_failed none caught s
report_init_failure (some ErrorType.auth_error) r caught s =
    start_report r connection_failed none caught s
report_init_failure (some ErrorType.failed) r caught s =
    start_report r multiple_failed none caught s
report_init_failure none r caught s = start_report r multiple_failed none caught s

-- `add_model_runner` from where `init` waits, has returned or has raised.
unfoldable pub settle : Ref → Bool → InitState → Cluster → Cluster × Task
unfolding drop_pending report_init_failure raise_in
settle r caught (waiting p) s = (s, initializing r p caught)
settle r caught (returned true error) s =
    let s' = drop_pending r s in
    (record s' { models_run = Dict.put (s.heap r).model_id r s'.models_run }, finished)
settle r caught (returned false error) s = report_init_failure error r caught (drop_pending r s)
settle r caught (raises e) s = (drop_pending r s, raise_in caught e)

-- `add_model_runner` from the assignment to `pending_model_runs`.
unfoldable pub begin_init : Ref → Bool → Opens → Cluster → Cluster × Task
unfolding settle store init_start
begin_init r caught opens s =
    let s' = record s {
      pending_model_runs = Dict.put (s.heap r).model_id r s.pending_model_runs;
    } in
    let (m, st) = init_start (s.heap r) opens in settle r caught st (store r m s')

-- `add_model_runner` up to its first await.
unfoldable pub start_add : Ref → Bool → Opens → Cluster → Cluster × Task
unfolding find_model start_remove begin_init
start_add r caught opens s = elim (find_model (s.heap r).model_id s) [
  | some current ↦ start_remove current (then_add r caught) s
  | none ↦ begin_init r caught opens s
]

unfoldable pub create : Option ModelRunner → Cluster → Option (Cluster × Ref)
unfolding allocate
create none s = none
create (some m) s = some (allocate m s)

-- `self.model_factory(...)`; `none` is the `ValueError` of the constructor.
unfoldable pub model_factory :
    Key
    → Key
    → Option String
    → Option String
    → Option ℕ
    → Option Infos
    → Cluster
    → Option (Cluster × Ref)
unfolding new_runner create
model_factory deployment_id model_id model_name ip port infos s =
    create
      (new_runner deployment_id model_id model_name ip port infos s.secure_credentials
        s.gateway_credentials)
      s

-- The rest of `reconnect_model_runner` from the answer of the factory.
unfoldable pub add_created : Option (Cluster × Ref) → Opens → Cluster → Cluster × Task
unfolding start_add raise_in
add_created none opens s = (s, raise_in true value_error)
add_created (some (s', r)) opens s = start_add r true opens s'

-- `reconnect_model_runner` after the removal.
unfoldable pub reconnect : Ref → Opens → Cluster → Cluster × Task
unfolding model_factory add_created
reconnect old opens s =
    let m = s.heap old in
    add_created (model_factory m.deployment_id m.model_id m.model_name m.ip m.port m.infos s) opens
      s

-- What follows a removal.
unfoldable pub after_remove : After → Opens → Cluster → Cluster × Task
unfolding begin_init reconnect
after_remove stop opens s = (s, finished)
after_remove (then_add r caught) opens s = begin_init r caught opens s
after_remove (then_reconnect old) opens s = reconnect old opens s

-- How an await of a task ends. `go` starts a scheduled coroutine or ends a `close`; it says how the
-- creation of channels goes, if the task comes to that.
pub data Answer : Type 0 where
  go : Opens → Answer
  init_reply : Reply → Answer
  sent : Sending → Answer

-- One turn of a task. An answer that the await cannot give changes nothing.
unfoldable pub resume : Task → Answer → Cluster → Cluster × Task
unfolding start_add start_remove start_report after_remove remove_entries settle store init_resume
    finish_send
resume (add_scheduled r) (go opens) s = start_add r false opens s
resume (remove_scheduled r) (go opens) s = start_remove r stop s
resume (report_scheduled r code reason) (go opens) s = start_report r code reason false s
resume (reconnect_scheduled r) (go opens) s = start_remove r (then_reconnect r) s
resume (closing r k) (go opens) s = after_remove k opens (remove_entries r s)
resume (initializing r p caught) (init_reply x) s =
    let (m, st) = init_resume (s.heap r) p x in settle r caught st (store r m s)
resume (sending r report caught) (sent x) s = finish_send r report caught x s
resume t _ s = (s, t)
