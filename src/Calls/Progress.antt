-- ===== src/Calls/Progress.antt =====
-- How many turns a concurrent call of model_concurrent_runner.py takes, and when it returns.
use mathlib.Core.Option.{some-injective}
use model_runner_client.Base.{
  ℕ, zero, suc, ◌+◌, ◌*◌, ◌≤◌, ◌<◌, ◌≡◌, ◌↔◌, refl, sym, ap, subst, Bool, true, false, Option, none,
  some, List, [], ◌∷◌, length, get_elem?, set, is_some, Bool-cases, inl, inr, arith, if◌then◌else◌,
}
use model_runner_client.Runner.{
  ModelRunner, ErrorType, rpc_error, timeout_error, auth_failure, should_skip_for_timeout_reason,
}
use model_runner_client.Concurrent.{
  Ref, ModelPredictResult, Config, MethodEnd, gives, raises, Call, awaiting_method, awaiting_health,
  finished, Turn, checks_health, conclude_timeout, on_timeout, call_start, call_failed, method_end,
  CallEnd, select_models,
}
use model_runner_client.Cluster.World.{World}
use model_runner_client.Calls.{
  Stage, scheduled, begun, CallInput, begins, method_ends, health_answers, Calls, CallsEvent,
  call_turn, world_event, schedule, start_calls, stage_turn, apply_turn, turn_at, calls_step,
  run_calls, gather_results, add_result, collect_gathered, outcome,
}

module _ {V : Type 0} where
  -- The turns that a call can still take: its begin, the end of its method and the health check.
  abbrev pub call_turns : Call V → ℕ
  call_turns awaiting_method = 2
  call_turns (awaiting_health time) = 1
  call_turns (finished r) = 0

  abbrev pub stage_turns : Stage V → ℕ
  stage_turns scheduled = 3
  stage_turns (begun call) = call_turns call

  abbrev pub turns_left : List (Ref × Stage V) → ℕ
  turns_left [] = 0
  turns_left ((m, st) ∷ cs) = stage_turns st + turns_left cs

module _ (V : Type 0) (c : Config) where
  on_timeout-turns :
      (m : Ref) (r : ModelRunner) (time : ℕ) → call_turns (on_timeout {V = V} c m r time).call ≤ 1
  unfolding on_timeout conclude_timeout
  on_timeout-turns m r time = elim (Bool-cases (checks_health c r)) [
    | inl e ↦ rw e (omega arith)
    | inr e ↦ rw e (omega arith)
  ]

  call_start-turns :
      (m : Ref) (r : ModelRunner) (found : Bool) (time : ℕ)
      → call_turns (call_start {V = V} c m r found time).call < 3
  unfolding call_start
  call_start-turns m r false time = omega arith
  call_start-turns m r true time = elim (Bool-cases (should_skip_for_timeout_reason r).1) [
    | inl e ↦
        let h = on_timeout-turns m (should_skip_for_timeout_reason r).0 time in rw e (omega arith)
    | inr e ↦ rw e (omega arith)
  ]

module _ {V : Type 0} (c : Config) where
  method_end-turns :
      (m : Ref) (r : ModelRunner) (e : MethodEnd V) (time : ℕ)
      → call_turns (method_end c m r e time).call < 2
  unfolding method_end call_failed
  method_end-turns m r (gives v none) time = omega arith
  method_end-turns m r (gives v (some ErrorType.bad_implementation)) time = omega arith
  method_end-turns m r (gives v (some _)) time = omega arith
  method_end-turns m r (raises timeout_error s) time =
      let h = on_timeout-turns V c m r time in omega arith
  method_end-turns m r (raises rpc_error s) time =
      let h = on_timeout-turns V c m r time in omega arith
  method_end-turns m r (raises auth_failure s) time = omega arith
  method_end-turns m r (raises _ s) time = omega arith

  abbrev Fewer : Option (Turn V) → ℕ → Type 0
  Fewer none n = Unit
  Fewer (some t) n = call_turns t.call < n

  stage_turn-Fewer :
      (m : Ref) (st : Stage V) (x : CallInput V) (r : ModelRunner)
      → Fewer (stage_turn c m st x r) (stage_turns st)
  unfolding stage_turn conclude_timeout
  stage_turn-Fewer m scheduled (begins found time) r = call_start-turns V c m r found time
  stage_turn-Fewer m (begun awaiting_method) (method_ends e time) r = method_end-turns m r e time
  stage_turn-Fewer m (begun (awaiting_health time)) (health_answers serving) r = omega arith
  stage_turn-Fewer m _ _ r = tt

  turns_left-set :
      (cs : List (Ref × Stage V)) (i : ℕ) (m : Ref) (st st' : Stage V)
      → get_elem? cs i ≡ some (m, st)
      → turns_left (set cs i (m, st')) + stage_turns st ≡ turns_left cs + stage_turns st'
  turns_left-set [] i m st st' g = cc
  turns_left-set ((j, s) ∷ cs) zero m st st' g =
      let h : stage_turns s ≡ stage_turns st =
        ap (λ q. stage_turns q.1) (some-injective (j, s) (m, st) g) in
      omega arith
  turns_left-set ((j, s) ∷ cs) (suc i) m st st' g =
      let h = turns_left-set cs i m st st' g in omega arith

  -- Whether the turn is one that the call can take.
  abbrev pub taken_by : Option (Ref × Stage V) → CallInput V → Calls V → ℕ
  taken_by none x s = 0
  taken_by (some (m, st)) x s =
      if is_some (stage_turn c m st x (s.world.cluster.heap m)) then 1 else 0

  abbrev pub taken_at : CallsEvent V → Calls V → ℕ
  taken_at (call_turn i x) s = taken_by (get_elem? s.running i) x s
  taken_at (world_event e) s = 0

  -- The turns that the calls take in a run.
  abbrev pub taken : List (CallsEvent V) → Calls V → ℕ
  taken [] s = 0
  taken (e ∷ es) s = taken_at e s + taken es (calls_step c e s)

  apply_turn-turns :
      (i : ℕ) (m : Ref) (st : Stage V) (o : Option (Turn V)) (s : Calls V)
      → get_elem? s.running i ≡ some (m, st)
      → Fewer o (stage_turns st)
      → (if is_some o then 1 else 0) + turns_left (apply_turn c i m o s).running
        ≤ turns_left s.running
  unfolding apply_turn
  apply_turn-turns i m st none s g f = omega arith
  apply_turn-turns i m st (some t) s g f =
      let h = turns_left-set s.running i m st (begun t.call) g in omega arith

  turn_at-turns :
      (i : ℕ) (x : CallInput V) (o : Option (Ref × Stage V)) (s : Calls V)
      → get_elem? s.running i ≡ o
      → taken_by o x s + turns_left (turn_at c i x o s).running ≤ turns_left s.running
  unfolding turn_at
  turn_at-turns i x none s g = omega arith
  turn_at-turns i x (some (m, st)) s g =
      let r = s.world.cluster.heap m in
      apply_turn-turns i m st (stage_turn c m st x r) s g (stage_turn-Fewer m st x r)

  calls_step-turns :
      (e : CallsEvent V) (s : Calls V)
      → taken_at e s + turns_left (calls_step c e s).running ≤ turns_left s.running
  unfolding calls_step
  calls_step-turns (call_turn i x) s = turn_at-turns i x (get_elem? s.running i) s refl
  calls_step-turns (world_event e) s = omega arith

  run_calls-turns :
      (es : List (CallsEvent V)) (s : Calls V)
      → taken es s + turns_left (run_calls c es s).running ≤ turns_left s.running
  unfolding run_calls
  run_calls-turns [] s = omega arith
  run_calls-turns (e ∷ es) s =
      let h = calls_step-turns e s in let g = run_calls-turns es (calls_step c e s) in omega arith

module _ (V : Type 0) where
  schedule-turns : (ms : List Ref) → turns_left {V = V} (schedule ms) ≡ 3 * length ms
  schedule-turns [] = omega arith
  schedule-turns (m ∷ ms) = let h = schedule-turns ms in omega arith

module _ {V : Type 0} where
  add_result-some :
      (r : Option (ModelPredictResult V)) (o : Option (List (CallEnd V)))
      → is_some (add_result r o) ≡ is_some o
  add_result-some r none = refl
  add_result-some r (some es) = refl

  gather_results-some :
      (cs : List (Ref × Stage V)) → (turns_left cs ≡ 0) ↔ (is_some (gather_results cs) ≡ true)
  unfolding gather_results
  gather_results-some [] = ground arith
  gather_results-some ((m, begun (finished r)) ∷ cs) =
      ground (arith, gather_results-some cs, add_result-some r (gather_results cs))
  gather_results-some ((m, scheduled) ∷ cs) = ground arith
  gather_results-some ((m, begun awaiting_method) ∷ cs) = ground arith
  gather_results-some ((m, begun (awaiting_health time)) ∷ cs) = ground arith

  collect_gathered-some : (o : Option (List (CallEnd V))) → is_some (collect_gathered o) ≡ is_some o
  unfolding collect_gathered
  collect_gathered-some none = refl
  collect_gathered-some (some es) = refl

  -- In whatever order they come, the calls of a concurrent call take three turns for each model at
  -- most, and the concurrent call returns, with a dictionary or an exception, exactly when none of
  -- its calls can take another turn.
  pub calls_end :
      (c : Config) (es : List (CallsEvent V)) (model_runs : Option (List Ref)) (w : World)
      → let s = run_calls c es (start_calls model_runs w) in
        (taken c es (start_calls model_runs w) + turns_left s.running
          ≤ 3 * length (select_models model_runs w.cluster.models_run))
        × ((turns_left s.running ≡ 0) ↔ (is_some (outcome s) ≡ true))
  unfolding start_calls outcome
  calls_end c es model_runs w =
      let s = run_calls c es (start_calls model_runs w) in
      let h = run_calls-turns c es (start_calls model_runs w) in
      let g = schedule-turns V (select_models model_runs w.cluster.models_run) in
      let o = gather_results s.running in
      (
        omega arith,
        subst (λ b. (turns_left s.running ≡ 0) ↔ (b ≡ true)) (sym (collect_gathered-some o))
            (gather_results-some s.running),
      )
