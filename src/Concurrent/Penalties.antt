-- ===== src/Concurrent/Penalties.antt =====
-- The penalties of model_concurrent_runner.py over single calls and over series of calls: who is
-- counted, who is reported to the cluster, and what a success clears.
use model_runner_client.Base.{
  ℕ, ◌+◌, ◌≤◌, ◌<◌, ◌≡◌, refl, Bool, true, false, none, some, List, [], ◌∷◌, ◌++◌, arith,
  if◌then◌else◌, length,
}
use model_runner_client.Base.{ap, ◌∙◌, zero, suc}
use model_runner_client.Runner.{
  ModelRunner, rpc_error, timeout_error, should_skip_for_timeout_reason, register_timeout,
  reset_failures, reset_timeouts,
}
use model_runner_client.Runner.Cooldown.{IsCounter}
use model_runner_client.Concurrent.{
  Ref, of_success, of_timeout, Config, Action, process_failure, reconnect_model_runner,
  multiple_timeout, MethodEnd, gives, raises, finished, checks_health, exceeds, execute,
}

-- The ends that count as a timeout.
abbrev pub is_timeout : {V : Type 0} → MethodEnd V → Bool
is_timeout (raises timeout_error s) = true
is_timeout (raises rpc_error s) = true
is_timeout _ = false

abbrev pub times : ℕ → Action → List Action
times zero a = []
times (suc n) a = a ∷ times n a

same_checks :
    (c : Config) (r s : ModelRunner)
    → s.consecutive_timeouts ≡ r.consecutive_timeouts
    → checks_health c r ≡ true
    → checks_health c s ≡ true
same_checks c r s e h = rw e h

same_limit :
    (c : Config) (n k : ℕ)
    → n ≡ k
    → exceeds c.max_consecutive_timeout k ≡ false
    → exceeds c.max_consecutive_timeout n ≡ false
same_limit c n k e h = rw e h

module _ {V : Type 0} (c : Config) (m : Ref) where
  -- A call that times out, or is skipped, on a model whose health check, if there is one, says
  -- SERVING: one more timeout is counted and nothing else happens to the counters of the model; it
  -- is reported exactly if the limit is now passed.
  pub execute_timeout :
      (r : ModelRunner) (e : MethodEnd V) (time : ℕ)
      → is_timeout e ≡ true
      → let t = execute c m r e true time in
        (t.runner.consecutive_timeouts ≡ r.consecutive_timeouts + 1)
        × (t.runner.consecutive_failures ≡ r.consecutive_failures)
        × (t.actions ≡ (
            if exceeds c.max_consecutive_timeout (r.consecutive_timeouts + 1)
            then process_failure multiple_timeout none ∷ []
            else []))
        × (t.call ≡ finished (some (of_timeout m time)))
  unfolding execute register_timeout
  execute_timeout r e time h = ground arith

  -- One call that times out, or is skipped, and whose health check is asked and does not say SERVING.
  execute_unhealthy :
      (r : ModelRunner) (e : MethodEnd V) (time : ℕ)
      → is_timeout e ≡ true
      → checks_health c r ≡ true
      → let t = execute c m r e false time in
        (t.runner.consecutive_timeouts ≡ r.consecutive_timeouts)
        × (t.runner.consecutive_failures ≡ r.consecutive_failures)
        × (t.actions
            ≡ reconnect_model_runner
              ∷ (if exceeds c.max_consecutive_timeout r.consecutive_timeouts
                  then process_failure multiple_timeout none ∷ []
                  else []))
        × (t.call ≡ finished (some (of_timeout m time)))
  unfolding execute
  execute_unhealthy r e time h k = ground arith

  -- A call that is let through and succeeds clears both counters, also after earlier timeouts, starts
  -- no task, and the next call is let through; the cooldown counter was not below -1.
  pub execute_success :
      (r : ModelRunner) (v : V) (serving : Bool) (time : ℕ)
      → IsCounter r.cooldown_calls_remaining
      → (should_skip_for_timeout_reason r).1 ≡ false
      → let t = execute c m r (gives v none) serving time in
        (t.runner.consecutive_failures ≡ 0)
        × (t.runner.consecutive_timeouts ≡ 0)
        × (t.actions ≡ [])
        × (t.call ≡ finished (some (of_success m v time)))
        × (should_skip_for_timeout_reason t.runner ≡ (t.runner, false))
  unfolding execute reset_failures reset_timeouts
  execute_success r v serving time h k = ground arith

  -- A series of calls, with what each await says. The actions come in the order of the calls.
  unfoldable pub execute_series :
      Bool → ModelRunner → List (MethodEnd V × ℕ) → ModelRunner × List Action
  execute_series serving r [] = (r, [])
  execute_series serving r ((e, time) ∷ es) =
      let t = execute c m r e serving time in
      let (r', actions) = execute_series serving t.runner es in (r', t.actions ++ actions)

  -- With health checks that say SERVING.
  unfoldable pub execute_all : ModelRunner → List (MethodEnd V × ℕ) → ModelRunner × List Action
  unfolding execute_series
  execute_all r es = execute_series true r es

  abbrev pub AllEnds : (MethodEnd V → Bool) → List (MethodEnd V × ℕ) → Type 0
  AllEnds p [] = Unit
  AllEnds p (e ∷ es) = (p e.0 ≡ true) × AllEnds p es

  -- As long as the limit is not passed, timeouts are only counted.
  timeouts_counted :
      (r : ModelRunner) (es : List (MethodEnd V × ℕ))
      → AllEnds is_timeout es
      → r.consecutive_timeouts + length es ≤ c.max_consecutive_timeout
      → ((execute_all r es).0.consecutive_timeouts ≡ r.consecutive_timeouts + length es)
        × ((execute_all r es).1 ≡ [])
  unfolding execute_all execute_series
  timeouts_counted r [] a l = (omega arith, refl)
  timeouts_counted r ((e, time) ∷ es) a l =
      let t = execute c m r e true time in
      ground (arith, execute_timeout r e time a.0, timeouts_counted t.runner es a.1)

  -- With a limit of `n > 0` timeouts in a row, and with health checks that say SERVING, a model without
  -- timeouts is not reported during the first `n` calls that time out or are skipped, and it is
  -- reported with the next one.
  pub timeouts_reported :
      (r : ModelRunner) (es : List (MethodEnd V × ℕ)) (e : MethodEnd V) (time : ℕ)
      → 0 < c.max_consecutive_timeout
      → r.consecutive_timeouts ≡ 0
      → AllEnds is_timeout es
      → length es ≡ c.max_consecutive_timeout
      → is_timeout e ≡ true
      → let (r', actions) = execute_all r es in
        (actions ≡ [])
        × ((execute c m r' e true time).actions ≡ process_failure multiple_timeout none ∷ [])
  timeouts_reported r es e time p z a l h =
      let r' = (execute_all r es).0 in
      ground (arith, timeouts_counted r es a, execute_timeout r' e time h)

  -- However often in a row a model, whose timeouts have not passed the limit, times out or is skipped
  -- while its health check is due and does not say SERVING, it gets no penalty for it: both counters
  -- stay as they were, it is never reported, and each of the calls reconnects it once.
  pub unhealthy_never_counts :
      (r : ModelRunner) (es : List (MethodEnd V × ℕ))
      → AllEnds is_timeout es
      → checks_health c r ≡ true
      → exceeds c.max_consecutive_timeout r.consecutive_timeouts ≡ false
      → let (s, actions) = execute_series false r es in
        (s.consecutive_timeouts ≡ r.consecutive_timeouts)
        × (s.consecutive_failures ≡ r.consecutive_failures)
        × (actions ≡ times (length es) reconnect_model_runner)
  unfolding execute_series
  unhealthy_never_counts r [] a h l = (refl, refl, refl)
  unhealthy_never_counts r ((e, time) ∷ es) a h l =
      let t = execute c m r e false time in
      let (timeouts, failures, actions, end) = execute_unhealthy r e time a.0 h in
      let (x, y, z) =
        unhealthy_never_counts t.runner es a.1 (same_checks c r t.runner timeouts h)
          (same_limit c _ _ timeouts l) in
      (x ∙ timeouts, y ∙ failures, rw (actions, l) (ap (λ xs. reconnect_model_runner ∷ xs) z))
