-- ===== src/Concurrent/Whole.antt =====
-- `_execute_concurrent_method` of model_concurrent_runner.py for calls of different models that do not
-- interfere: who gets a result, and what one refused authentication does to all.
use model_runner_client.Base.{
  ℕ, ◌≡◌, refl, ◌∙◌, ap, Bool, true, false, Option, none, some, List, [], ◌∷◌, map, if◌then◌else◌,
}
use model_runner_client.Base.Eq.{nat_equality}
use model_runner_client.Dict
use model_runner_client.Dict.{Dict}
use model_runner_client.Runner.{
  ModelRunner, auth_failure, rpc_error, timeout_error, should_skip_for_timeout_reason,
}
use model_runner_client.Concurrent.{
  Ref, ModelPredictResult, of_timeout, Config, MethodEnd, gives, raises, Call, finished, execute,
  CallEnd, completed, cancelled, collect,
}
use model_runner_client.Concurrent.Failures.{verdict, execute-verdict}
use model_runner_client.Concurrent.Results.{has_none, last_result, collect_lem, collect_raises}

-- One of the calls: the model, and what its awaits give.
pub record Request (V : Type 0) : Type 0 where
  pub model : Ref
  pub runner : ModelRunner
  pub method : MethodEnd V
  pub serving : Bool
  pub time : ℕ

module _ {V : Type 0} (c : Config) where
  -- What `asyncio.gather` holds for a call.
  unfoldable pub gathered_call : Call V → CallEnd V
  gathered_call (finished r) = completed r
  gathered_call _ = cancelled

  unfoldable pub gather_call : Request V → CallEnd V
  unfolding gathered_call
  gather_call q = gathered_call (execute c q.model q.runner q.method q.serving q.time).call

  unfoldable pub execute_concurrent_method :
      List (Request V) → Option (Dict Ref (ModelPredictResult V))
  unfolding gather_call collect
  execute_concurrent_method qs = collect (map gather_call qs)

  abbrev pub is_auth_failure : MethodEnd V → Bool
  is_auth_failure (raises auth_failure s) = true
  is_auth_failure _ = false

  -- A call that is made and whose server is not authenticated.
  abbrev pub is_refused : Request V → Bool
  is_refused q =
      if (should_skip_for_timeout_reason q.runner).1 then false else is_auth_failure q.method

  abbrev pub any_refused : List (Request V) → Bool
  any_refused [] = false
  any_refused (q ∷ qs) = if is_refused q then true else any_refused qs

  -- What each call comes to if no authentication is refused.
  abbrev pub call_result : Request V → CallEnd V
  call_result q = completed (
      if (should_skip_for_timeout_reason q.runner).1
      then some (of_timeout q.model q.time)
      else verdict c q.model q.method q.time)

  gather_call_lem : (q : Request V) → gather_call q ≡ call_result q
  unfolding gather_call gathered_call
  gather_call_lem q =
      ap gathered_call (execute-verdict c q.model q.runner q.method q.serving q.time)

  gather_calls_lem : (qs : List (Request V)) → map gather_call qs ≡ map call_result qs
  gather_calls_lem [] = refl
  gather_calls_lem (q ∷ qs) = λ i. gather_call_lem q i ∷ gather_calls_lem qs i

  has_none-verdict :
      (skip : Bool) (e : MethodEnd V) (m : Ref) (time : ℕ) (rest : List (CallEnd V))
      → has_none (completed (if skip then some (of_timeout m time) else verdict c m e time) ∷ rest)
        ≡ (if (if skip then false else is_auth_failure e) then true else has_none rest)
  has_none-verdict true e m time rest = refl
  has_none-verdict false (gives v none) m time rest = refl
  has_none-verdict false (gives v (some e)) m time rest = refl
  has_none-verdict false (raises timeout_error s) m time rest = refl
  has_none-verdict false (raises rpc_error s) m time rest = refl
  has_none-verdict false (raises auth_failure s) m time rest = refl
  has_none-verdict false (raises _ s) m time rest = refl

  has_none-call_results : (qs : List (Request V)) → has_none (map call_result qs) ≡ any_refused qs
  has_none-call_results [] = refl
  has_none-call_results (q ∷ qs) =
      has_none-verdict (should_skip_for_timeout_reason q.runner).1 q.method q.model q.time
        (map call_result qs)
      ∙ ap (λ b. if is_refused q then true else b) (has_none-call_results qs)

  -- If one of the calls is made and its server is not authenticated, the results of all models are
  -- lost: the concurrent call raises an exception.
  pub execute_concurrent_method_raises :
      (qs : List (Request V)) → any_refused qs ≡ true → execute_concurrent_method qs ≡ none
  unfolding execute_concurrent_method
  execute_concurrent_method_raises qs h =
      ap collect (gather_calls_lem qs)
      ∙ collect_raises (map call_result qs) (has_none-call_results qs ∙ h)

  -- If no authentication is refused, a concurrent call returns for each model its last result, and
  -- nothing else: TIMEOUT for a call that is skipped, and the verdict on its method for the others.
  pub execute_concurrent_method_lem :
      (qs : List (Request V))
      → any_refused qs ≡ false
      → (out : Dict Ref (ModelPredictResult V)) × (execute_concurrent_method qs ≡ some out)
        × ((m : Ref) → Dict.get m out ≡ last_result m (map call_result qs))
  unfolding execute_concurrent_method
  execute_concurrent_method_lem qs h =
      let (out, e, get) = collect_lem (map call_result qs) (has_none-call_results qs ∙ h) in
      (out, ap collect (gather_calls_lem qs) ∙ e, get)
