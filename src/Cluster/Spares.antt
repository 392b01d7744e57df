-- ===== src/Cluster/Spares.antt =====
-- A turn of a task of model_cluster.py that has nothing to do with adding a runner does not bring that
-- runner into the dictionaries.
use model_runner_client.Base.{
  ◌≡◌, ◌≢◌, refl, Bool, true, false, Option, none, some, arith, Bool-cases, inl, inr, nat_beq,
  String,
}
use model_runner_client.Base.Eq.{nat_equality, string_equality, option_equality}
use model_runner_client.Dict
use model_runner_client.Dict.{Dict, get-put, get-delete}
use model_runner_client.Runner.{ErrorType, Exception, Key}
use model_runner_client.Runner.Init.{InitState, waiting, returned, raises}
use model_runner_client.Websocket.{SocketError, Sending, is_connected, try_send}
use model_runner_client.Concurrent.{Ref, FailureCode, multiple_failed, connection_failed}
use model_runner_client.Cluster.{
  Cluster, Report, After, stop, then_add, Task, add_scheduled, closing, initializing, drop_entry,
  drop_pending, start_remove, error_msg,
}
use model_runner_client.Cluster.Coroutines.{
  start_send, start_report, raise_in, after_send, finish_send, report_init_failure, settle,
}
use model_runner_client.Cluster.Pending.{put-ne}

abbrev pub after_adds : After → Ref → Bool
after_adds (then_add r caught) q = nat_beq r q
after_adds _ q = false

-- The task is on its way to adding the runner.
abbrev pub adds : Task → Ref → Bool
adds (add_scheduled r) q = nat_beq r q
adds (closing r k) q = after_adds k q
adds (initializing r p caught) q = nat_beq r q
adds _ q = false

-- The result of a turn that began in `s` holds `q` only where `s` did, and its task does not add `q`.
pub record IsSpared (q : Ref) (s : Cluster) (res : Cluster × Task) : Type 0 where
  pub running : (k : Key) → Dict.get k res.0.models_run ≡ some q → Dict.get k s.models_run ≡ some q
  pub pending :
      (k : Key)
      → Dict.get k res.0.pending_model_runs ≡ some q
      → Dict.get k s.pending_model_runs ≡ some q
  pub task : adds res.1 q ≡ false

pub get-drop_entry :
    (j k : Key) (r q : Ref) (d : Dict Key Ref)
    → Dict.get k (drop_entry j r d) ≡ some q
    → Dict.get k d ≡ some q
unfolding drop_entry
get-drop_entry j k r q d e = ground (arith, get-delete k j d)

module _ (q : Ref) where
  pub start_remove-IsSpared :
      (r : Ref) (k : After) (s : Cluster)
      → after_adds k q ≡ false
      → IsSpared q s (start_remove r k s)
  unfolding start_remove
  start_remove-IsSpared r k s n = record { running = λ j e. e; pending = λ j e. e; task = n }

  start_send-IsSpared :
      (connected : Bool) (r : Ref) (report : Report) (caught : Bool) (s : Cluster)
      → IsSpared q s (start_send connected r report caught s)
  unfolding start_send start_remove
  start_send-IsSpared true r report caught s = record {
    running = λ j e. e;
    pending = λ j e. e;
    task = refl;
  }
  start_send-IsSpared false r report caught s = record {
    running = λ j e. e;
    pending = λ j e. e;
    task = refl;
  }

  pub start_report-IsSpared :
      (r : Ref) (code : FailureCode) (reason : Option String) (caught : Bool) (s : Cluster)
      → IsSpared q s (start_report r code reason caught s)
  unfolding start_report
  start_report-IsSpared r code reason caught s = elim (Bool-cases s.report_failure) [
    | inl e ↦ simp e (
        start_send-IsSpared (is_connected s.ws_client) r (error_msg (s.heap r) code reason) caught
          s)
    | inr e ↦ simp e (record { running = λ j f. f; pending = λ j f. f; task = refl })
  ]

  raise_in-adds : (caught : Bool) (e : Exception) → adds (raise_in caught e) q ≡ false
  unfolding raise_in
  raise_in-adds true e = refl
  raise_in-adds false e = refl

  after_send-IsSpared :
      (r : Ref) (caught : Bool) (error : Option SocketError) (s : Cluster)
      → IsSpared q s (after_send r caught error s)
  unfolding after_send
  after_send-IsSpared r caught none s = start_remove-IsSpared r stop s refl
  after_send-IsSpared r caught (some e) s = record {
    running = λ j f. f;
    pending = λ j f. f;
    task = raise_in-adds caught Exception.other_error;
  }

  -- From a state with the same dictionaries, or with fewer entries for `q`.
  pub IsSpared-from :
      (s t : Cluster) (res : Cluster × Task)
      → ((k : Key) → Dict.get k t.models_run ≡ some q → Dict.get k s.models_run ≡ some q)
      → ((k : Key)
          → Dict.get k t.pending_model_runs ≡ some q
          → Dict.get k s.pending_model_runs ≡ some q)
      → IsSpared q t res
      → IsSpared q s res
  IsSpared-from s t res f g i = record {
    running = λ k e. f k (i.running k e);
    pending = λ k e. g k (i.pending k e);
    task = i.task;
  }

  pub finish_send-IsSpared :
      (r : Ref) (report : Report) (caught : Bool) (x : Sending) (s : Cluster)
      → IsSpared q s (finish_send r report caught x s)
  unfolding finish_send
  finish_send-IsSpared r report caught x s =
      let (ws, error) = try_send report x s.ws_client in
      let t = record s { ws_client = ws } in
      IsSpared-from s t (after_send r caught error t) (λ k e. e) (λ k e. e)
        (after_send-IsSpared r caught error t)

  report_init_failure-IsSpared :
      (error : Option ErrorType) (r : Ref) (caught : Bool) (s : Cluster)
      → IsSpared q s (report_init_failure error r caught s)
  unfolding report_init_failure
  report_init_failure-IsSpared (some ErrorType.bad_implementation) r caught s =
      start_report-IsSpared r FailureCode.bad_implementation none caught s
  report_init_failure-IsSpared (some ErrorType.aborted) r caught s = record {
    running = λ j f. f;
    pending = λ j f. f;
    task = refl;
  }
  report_init_failure-IsSpared (some ErrorType.grpc_connection_failed) r caught s =
      start_report-IsSpared r connection_failed none caught s
  report_init_failure-IsSpared (some ErrorType.auth_error) r caught s =
      start_report-IsSpared r connection_failed none caught s
  report_init_failure-IsSpared (some ErrorType.failed) r caught s =
      start_report-IsSpared r multiple_failed none caught s
  report_init_failure-IsSpared none r caught s =
      start_report-IsSpared r multiple_failed none caught s

  drop_pending-get :
      (r : Ref) (s : Cluster) (k : Key)
      → Dict.get k (drop_pending r s).pending_model_runs ≡ some q
      → Dict.get k s.pending_model_runs ≡ some q
  unfolding drop_pending
  drop_pending-get r s k e = get-drop_entry (s.heap r).model_id k r q s.pending_model_runs e

  pub ne_beq : (r : Ref) → q ≢ r → nat_beq r q ≡ false
  ne_beq r n = ground (arith, n)

  pub settle-IsSpared :
      (r : Ref) (caught : Bool) (st : InitState) (s : Cluster)
      → q ≢ r
      → IsSpared q s (settle r caught st s)
  unfolding settle
  settle-IsSpared r caught (waiting p) s n = record {
    running = λ k e. e;
    pending = λ k e. e;
    task = ne_beq r n;
  }
  settle-IsSpared r caught (returned true error) s n = record {
    running = λ k e. put-ne (s.heap r).model_id k r q s.models_run e n;
    pending = λ k e. drop_pending-get r s k e;
    task = refl;
  }
  settle-IsSpared r caught (returned false error) s n =
      IsSpared-from s (drop_pending r s) _ (unfold drop_pending in λ k e. e) (drop_pending-get r s)
        (report_init_failure-IsSpared error r caught (drop_pending r s))
  settle-IsSpared r caught (raises x) s n = record {
    running = unfold drop_pending in λ k e. e;
    pending = λ k e. drop_pending-get r s k e;
    task = raise_in-adds caught x;
  }
