-- ===== src/Cluster/Settled.antt =====
-- The turns of model_cluster.py that send a report or settle an `init` keep the dictionaries indexed.
use model_runner_client.Base.{
  ◌<◌, refl, Bool, true, false, Option, none, some, Bool-cases, inl, inr, String,
}
use model_runner_client.Base.Eq.{nat_equality, string_equality, option_equality}
use model_runner_client.Runner.{ErrorType, Exception}
use model_runner_client.Runner.Init.{InitState, waiting, returned, raises}
use model_runner_client.Websocket.{SocketError, Sending, is_connected, enqueue, entrust, try_send}
use model_runner_client.Concurrent.{Ref, FailureCode, multiple_failed, connection_failed}
use model_runner_client.Cluster.{
  Cluster, Report, stop, initializing, sending, finished, drop_pending, start_remove, error_msg,
}
use model_runner_client.Cluster.Coroutines.{
  start_send, start_report, raise_in, after_send, finish_send, report_init_failure, settle,
}
use model_runner_client.Cluster.Frame.{Extends, Extends-refl, IsIndexed-put, IsIndexed-drop_entry}
use model_runner_client.Cluster.WellFormed.{
  IsWellFormed, TaskIn, IsGood, IsGood-after, start_remove-IsGood, same_heap-Extends, stay-IsGood,
}

raise_in-TaskIn : (s : Cluster) (caught : Bool) (e : Exception) → TaskIn s (raise_in caught e)
unfolding raise_in
raise_in-TaskIn s true e = tt
raise_in-TaskIn s false e = tt

start_send-IsGood :
    (connected : Bool) (r : Ref) (report : Report) (caught : Bool) (s : Cluster)
    → r < s.next
    → IsWellFormed s
    → IsGood s (start_send connected r report caught s)
unfolding start_send
start_send-IsGood true r report caught s h w =
    stay-IsGood s s (sending r report caught) (Extends-refl s) w h
start_send-IsGood false r report caught s h w =
    let t = record s { ws_client = enqueue report (entrust report s.ws_client) } in
    IsGood-after s t (start_remove r stop t) (same_heap-Extends s t refl refl)
      (start_remove-IsGood r stop t h tt (record { running = w.running; pending = w.pending }))

pub start_report-IsGood :
    (r : Ref) (code : FailureCode) (reason : Option String) (caught : Bool) (s : Cluster)
    → r < s.next
    → IsWellFormed s
    → IsGood s (start_report r code reason caught s)
unfolding start_report
start_report-IsGood r code reason caught s h w = elim (Bool-cases s.report_failure) [
  | inl e ↦ simp e (
      start_send-IsGood (is_connected s.ws_client) r (error_msg (s.heap r) code reason) caught s h
        w)
  | inr e ↦ simp e (stay-IsGood s s finished (Extends-refl s) w tt)
]

after_send-IsGood :
    (r : Ref) (caught : Bool) (error : Option SocketError) (s : Cluster)
    → r < s.next
    → IsWellFormed s
    → IsGood s (after_send r caught error s)
unfolding after_send
after_send-IsGood r caught none s h w = start_remove-IsGood r stop s h tt w
after_send-IsGood r caught (some e) s h w =
    stay-IsGood s s _ (Extends-refl s) w (raise_in-TaskIn s caught Exception.other_error)

pub finish_send-IsGood :
    (r : Ref) (report : Report) (caught : Bool) (x : Sending) (s : Cluster)
    → r < s.next
    → IsWellFormed s
    → IsGood s (finish_send r report caught x s)
unfolding finish_send
finish_send-IsGood r report caught x s h w =
    let (ws, error) = try_send report x s.ws_client in
    let t = record s { ws_client = ws } in
    IsGood-after s t (after_send r caught error t) (same_heap-Extends s t refl refl)
      (after_send-IsGood r caught error t h (record { running = w.running; pending = w.pending }))

report_init_failure-IsGood :
    (error : Option ErrorType) (r : Ref) (caught : Bool) (s : Cluster)
    → r < s.next
    → IsWellFormed s
    → IsGood s (report_init_failure error r caught s)
unfolding report_init_failure
report_init_failure-IsGood (some ErrorType.bad_implementation) r caught s h w =
    start_report-IsGood r FailureCode.bad_implementation none caught s h w
report_init_failure-IsGood (some ErrorType.aborted) r caught s h w =
    stay-IsGood s s finished (Extends-refl s) w tt
report_init_failure-IsGood (some ErrorType.grpc_connection_failed) r caught s h w =
    start_report-IsGood r connection_failed none caught s h w
report_init_failure-IsGood (some ErrorType.auth_error) r caught s h w =
    start_report-IsGood r connection_failed none caught s h w
report_init_failure-IsGood (some ErrorType.failed) r caught s h w =
    start_report-IsGood r multiple_failed none caught s h w
report_init_failure-IsGood none r caught s h w =
    start_report-IsGood r multiple_failed none caught s h w

drop_pending-IsWellFormed :
    (r : Ref) (s : Cluster) → IsWellFormed s → IsWellFormed (drop_pending r s)
unfolding drop_pending
drop_pending-IsWellFormed r s w = record {
  running = w.running;
  pending = IsIndexed-drop_entry s s.pending_model_runs (s.heap r).model_id r w.pending;
}

drop_pending-Extends : (r : Ref) (s : Cluster) → Extends s (drop_pending r s)
unfolding drop_pending
drop_pending-Extends r s = same_heap-Extends s (drop_pending r s) refl refl

pub settle-IsGood :
    (r : Ref) (caught : Bool) (st : InitState) (s : Cluster)
    → r < s.next
    → IsWellFormed s
    → IsGood s (settle r caught st s)
unfolding settle
settle-IsGood r caught (waiting p) s h w =
    stay-IsGood s s (initializing r p caught) (Extends-refl s) w h
settle-IsGood r caught (returned true error) s h w =
    let v = drop_pending-IsWellFormed r s w in
    stay-IsGood s _ finished (same_heap-Extends s _ refl refl)
      (record { running = IsIndexed-put s s.models_run r h w.running; pending = v.pending }) tt
settle-IsGood r caught (returned false error) s h w =
    IsGood-after s (drop_pending r s) _ (drop_pending-Extends r s) (
      report_init_failure-IsGood error r caught (drop_pending r s) h
        (drop_pending-IsWellFormed r s w))
settle-IsGood r caught (raises e) s h w =
    stay-IsGood s (drop_pending r s) _ (drop_pending-Extends r s) (drop_pending-IsWellFormed r s w)
      (raise_in-TaskIn (drop_pending r s) caught e)
