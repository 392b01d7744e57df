-- ===== src/Calls/Tracks.antt =====
-- The calls of one concurrent call of model_concurrent_runner.py stay those of its models, and each has
-- a result of its own model only.
use mathlib.Core.Option.{some-injective}
use model_runner_client.Base.{
  ℕ, ◌≡◌, refl, sym, ap, ◌∙◌, Bool, true, false, Option, none, some, List, [], ◌∷◌, get_elem?, set,
  All, All-set, Bool-cases, inl, inr, zero, suc,
}
use model_runner_client.Base.Eq.{nat_equality}
use model_runner_client.Runner.{
  ModelRunner, ErrorType, rpc_error, timeout_error, auth_failure, should_skip_for_timeout_reason,
}
use model_runner_client.Concurrent.{
  Ref, Config, MethodEnd, gives, raises, Call, awaiting_method, awaiting_health, finished, Turn,
  checks_health, conclude_timeout, on_timeout, call_start, call_failed, method_end,
}
use model_runner_client.Calls.{
  Stage, scheduled, begun, CallInput, begins, method_ends, health_answers, Calls, CallsEvent,
  call_turn, world_event, stage_turn, apply_turn, turn_at, calls_step, run_calls,
}

module _ {V : Type 0} where
  -- A result that the call has is one of its own model.
  abbrev pub Names : Ref → Call V → Type 0
  Names m (finished (some p)) = p.model_runner ≡ m
  Names m _ = Unit

module _ (V : Type 0) (c : Config) where
  on_timeout-Names :
      (m : Ref) (r : ModelRunner) (time : ℕ) → Names m (on_timeout {V = V} c m r time).call
  unfolding on_timeout conclude_timeout
  on_timeout-Names m r time = elim (Bool-cases (checks_health c r)) [
    | inl e ↦ rw e tt
    | inr e ↦ rw e refl
  ]

  call_start-Names :
      (m : Ref) (r : ModelRunner) (found : Bool) (time : ℕ)
      → Names m (call_start {V = V} c m r found time).call
  unfolding call_start
  call_start-Names m r false time = refl
  call_start-Names m r true time = elim (Bool-cases (should_skip_for_timeout_reason r).1) [
    | inl e ↦ rw e (on_timeout-Names m (should_skip_for_timeout_reason r).0 time)
    | inr e ↦ rw e tt
  ]

module _ {V : Type 0} where
  abbrev pub Named : Ref × Stage V → Type 0
  Named (m, scheduled) = Unit
  Named (m, begun call) = Names m call

  abbrev pub models_of : List (Ref × Stage V) → List Ref
  models_of [] = []
  models_of ((m, st) ∷ cs) = m ∷ models_of cs

  models_of-set :
      (cs : List (Ref × Stage V)) (i : ℕ) (m : Ref) (st st' : Stage V)
      → get_elem? cs i ≡ some (m, st)
      → models_of (set cs i (m, st')) ≡ models_of cs
  models_of-set [] i m st st' g = refl
  models_of-set ((j, s) ∷ cs) zero m st st' g =
      ap (λ k. k ∷ models_of cs) (sym (ap (λ p. p.0) (some-injective (j, s) (m, st) g)))
  models_of-set ((j, s) ∷ cs) (suc i) m st st' g = ap (λ ms. j ∷ ms) (models_of-set cs i m st st' g)

  -- The calls are those of the models, and what they have is their own.
  pub record Tracks (ms : List Ref) (s : Calls V) : Type 0 where
    pub models : models_of s.running ≡ ms
    pub named : All Named s.running

  module _ (c : Config) where
    method_end-Names :
        (m : Ref) (r : ModelRunner) (e : MethodEnd V) (time : ℕ)
        → Names m (method_end c m r e time).call
    unfolding method_end call_failed
    method_end-Names m r (gives v none) time = refl
    method_end-Names m r (gives v (some ErrorType.bad_implementation)) time = refl
    method_end-Names m r (gives v (some _)) time = refl
    method_end-Names m r (raises timeout_error s) time = on_timeout-Names V c m r time
    method_end-Names m r (raises rpc_error s) time = on_timeout-Names V c m r time
    method_end-Names m r (raises auth_failure s) time = tt
    method_end-Names m r (raises _ s) time = refl

    abbrev TurnNames : Ref → Option (Turn V) → Type 0
    TurnNames m none = Unit
    TurnNames m (some t) = Names m t.call

    stage_turn-Names :
        (m : Ref) (st : Stage V) (x : CallInput V) (r : ModelRunner)
        → TurnNames m (stage_turn c m st x r)
    unfolding stage_turn conclude_timeout
    stage_turn-Names m scheduled (begins found time) r = call_start-Names V c m r found time
    stage_turn-Names m (begun awaiting_method) (method_ends e time) r = method_end-Names m r e time
    stage_turn-Names m (begun (awaiting_health time)) (health_answers serving) r = refl
    stage_turn-Names m _ _ r = tt

    apply_turn-Tracks :
        (ms : List Ref) (i : ℕ) (m : Ref) (st : Stage V) (o : Option (Turn V)) (s : Calls V)
        → get_elem? s.running i ≡ some (m, st)
        → TurnNames m o
        → Tracks ms s
        → Tracks ms (apply_turn c i m o s)
    unfolding apply_turn
    apply_turn-Tracks ms i m st none s g n h = h
    apply_turn-Tracks ms i m st (some t) s g n h = record {
      models = models_of-set s.running i m st (begun t.call) g ∙ h.models;
      named = All-set Named s.running i (m, begun t.call) h.named n;
    }

    turn_at-Tracks :
        (ms : List Ref) (i : ℕ) (x : CallInput V) (o : Option (Ref × Stage V)) (s : Calls V)
        → get_elem? s.running i ≡ o
        → Tracks ms s
        → Tracks ms (turn_at c i x o s)
    unfolding turn_at
    turn_at-Tracks ms i x none s g h = h
    turn_at-Tracks ms i x (some (m, st)) s g h =
        let r = s.world.cluster.heap m in
        apply_turn-Tracks ms i m st (stage_turn c m st x r) s g (stage_turn-Names m st x r) h

    pub run_calls-Tracks :
        (ms : List Ref) (es : List (CallsEvent V)) (s : Calls V)
        → Tracks ms s
        → Tracks ms (run_calls c es s)
    unfolding run_calls calls_step
    run_calls-Tracks ms [] s h = h
    run_calls-Tracks ms (call_turn i x ∷ es) s h =
        run_calls-Tracks ms es (turn_at c i x (get_elem? s.running i) s)
          (turn_at-Tracks ms i x (get_elem? s.running i) s refl h)
    run_calls-Tracks ms (world_event e ∷ es) s h =
        run_calls-Tracks ms es (calls_step c (world_event e) s)
          (record { models = h.models; named = h.named })
