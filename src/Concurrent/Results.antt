-- ===== src/Concurrent/Results.antt =====
-- The dictionary of results that `_execute_concurrent_method` of model_concurrent_runner.py returns.
use model_runner_client.Base.{
  ◌≡◌, refl, Bool, true, false, Option, none, some, List, [], ◌∷◌, arith, if◌then◌else◌, or_else,
}
use model_runner_client.Base.Eq.{◌==◌, nat_equality}
use model_runner_client.Dict
use model_runner_client.Dict.{Dict, get-put, get-nil}
use model_runner_client.Concurrent.{
  Ref, ModelPredictResult, CallEnd, completed, cancelled, collect_into, collect,
}

module _ {V : Type 0} where
  -- Some call returned `None`.
  abbrev pub has_none : List (CallEnd V) → Bool
  has_none [] = false
  has_none (completed none ∷ es) = true
  has_none (completed (some r) ∷ es) = has_none es
  has_none (cancelled ∷ es) = has_none es

  -- The last result of a model.
  abbrev pub last_result : Ref → List (CallEnd V) → Option (ModelPredictResult V)
  last_result m [] = none
  last_result m (completed none ∷ es) = last_result m es
  last_result m (completed (some r) ∷ es) =
      or_else (last_result m es) (if m == r.model_runner then some r else none)
  last_result m (cancelled ∷ es) = last_result m es

  collect_into_raises :
      (d : Dict Ref (ModelPredictResult V)) (es : List (CallEnd V))
      → has_none es ≡ true
      → collect_into d es ≡ none
  unfolding collect_into
  collect_into_raises d [] h = cc
  collect_into_raises d (completed none ∷ es) h = refl
  collect_into_raises d (completed (some r) ∷ es) h =
      collect_into_raises (Dict.put r.model_runner r d) es h
  collect_into_raises d (cancelled ∷ es) h = collect_into_raises d es h

  collect_into_lem :
      (d : Dict Ref (ModelPredictResult V)) (es : List (CallEnd V))
      → has_none es ≡ false
      → (out : Dict Ref (ModelPredictResult V)) × (collect_into d es ≡ some out)
        × ((m : Ref) → Dict.get m out ≡ or_else (last_result m es) (Dict.get m d))
  unfolding collect_into
  collect_into_lem d [] h = (d, refl, λ m. refl)
  collect_into_lem d (completed none ∷ es) h = absurd (cc)
  collect_into_lem d (completed (some r) ∷ es) h =
      let (out, e, get) = collect_into_lem (Dict.put r.model_runner r d) es h in
      (out, e, λ m. ground (arith, get m, get-put m r.model_runner r d))
  collect_into_lem d (cancelled ∷ es) h = collect_into_lem d es h

  -- If no call returned `None`, the result of a concurrent call holds for each model its last result,
  -- and nothing else.
  pub collect_lem :
      (es : List (CallEnd V))
      → has_none es ≡ false
      → (out : Dict Ref (ModelPredictResult V)) × (collect es ≡ some out)
        × ((m : Ref) → Dict.get m out ≡ last_result m es)
  unfolding collect
  collect_lem es h =
      let (out, e, get) = collect_into_lem [] es h in
      (out, e, λ m. ground (arith, get m, get-nil {V = ModelPredictResult V} m))

  -- One call that returned `None` loses the results of all others.
  pub collect_raises : (es : List (CallEnd V)) → has_none es ≡ true → collect es ≡ none
  unfolding collect
  collect_raises es h = collect_into_raises [] es h
