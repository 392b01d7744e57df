-- ===== src/Calls/Results.antt =====
-- Whose results a concurrent call of model_concurrent_runner.py returns when its calls interleave with
-- everything else that happens to the models.
use model_runner_client.Base.{
  ◌≡◌, refl, sym, ap, subst, ◌∙◌, Bool, true, false, ◌||◌, ◌&&◌, Option, none, some, List, [], ◌∷◌,
  All, is_some, arith,
}
use model_runner_client.Base.Eq.{◌==◌, nat_equality}
use model_runner_client.Runner.{Key}
use model_runner_client.Dict
use model_runner_client.Dict.{Dict}
use model_runner_client.Concurrent.{
  Ref, ModelPredictResult, Config, awaiting_method, awaiting_health, finished, CallEnd, completed,
  cancelled, select_models,
}
use model_runner_client.Concurrent.Results.{has_none, last_result, collect_lem}
use model_runner_client.Cluster.World.{World}
use model_runner_client.Calls.{
  Stage, scheduled, begun, Calls, CallsEvent, schedule, start_calls, run_calls, gather_results,
  add_result, collect_gathered, outcome,
}
use model_runner_client.Calls.Tracks.{Names, Named, models_of, Tracks, run_calls-Tracks}

-- `model in models`
abbrev pub member : Ref → List Ref → Bool
member m [] = false
member m (j ∷ js) = m == j || member m js

module _ {V : Type 0} where
  -- Each of the models, and no other, has a last result.
  abbrev HaveResults : List Ref → Option (List (CallEnd V)) → Type 0
  HaveResults ms none = Unit
  HaveResults ms (some es) =
      has_none es ≡ false → (m : Ref) → is_some (last_result m es) ≡ member m ms

  add_result-HaveResults :
      (j : Ref) (r : Option (ModelPredictResult V)) (ms : List Ref) (o : Option (List (CallEnd V)))
      → Names j (finished r)
      → HaveResults ms o
      → HaveResults (j ∷ ms) (add_result r o)
  add_result-HaveResults j r ms none n h = tt
  add_result-HaveResults j none ms (some es) n h = λ e. absurd (cc)
  add_result-HaveResults j (some p) ms (some es) n h = λ e m. ground (arith, n, h e m)

  gather_results-HaveResults :
      (cs : List (Ref × Stage V)) → All Named cs → HaveResults (models_of cs) (gather_results cs)
  unfolding gather_results
  gather_results-HaveResults [] n = λ e m. refl
  gather_results-HaveResults ((j, begun (finished r)) ∷ cs) n =
      add_result-HaveResults j r (models_of cs) (gather_results cs) n.0
        (gather_results-HaveResults cs n.1)
  gather_results-HaveResults ((j, scheduled) ∷ cs) n = tt
  gather_results-HaveResults ((j, begun awaiting_method) ∷ cs) n = tt
  gather_results-HaveResults ((j, begun (awaiting_health time)) ∷ cs) n = tt

  last_result-model :
      (m : Ref) (es : List (CallEnd V)) (p : ModelPredictResult V)
      → last_result m es ≡ some p
      → p.model_runner ≡ m
  last_result-model m [] p e = cc
  last_result-model m (completed none ∷ es) p e = last_result-model m es p e
  last_result-model m (completed (some r) ∷ es) p e = ground (arith, last_result-model m es p)
  last_result-model m (cancelled ∷ es) p e = last_result-model m es p e

  -- Every call has finished, and with a result.
  abbrev pub has_result : Ref × Stage V → Bool
  has_result (m, begun (finished (some p))) = true
  has_result _ = false

  abbrev pub all_have_results : List (Ref × Stage V) → Bool
  all_have_results [] = true
  all_have_results (s ∷ cs) = has_result s && all_have_results cs

  gather_results-done :
      (cs : List (Ref × Stage V))
      → all_have_results cs ≡ true
      → (es : List (CallEnd V)) × (gather_results cs ≡ some es) × (has_none es ≡ false)
  unfolding gather_results
  gather_results-done [] h = ([], refl, refl)
  gather_results-done ((j, begun (finished (some p))) ∷ cs) h =
      let (es, e, n) = gather_results-done cs h in
      (completed (some p) ∷ es, ap (add_result (some p)) e, n)
  gather_results-done ((j, begun (finished none)) ∷ cs) h = absurd (cc)
  gather_results-done ((j, begun awaiting_method) ∷ cs) h = absurd (cc)
  gather_results-done ((j, begun (awaiting_health time)) ∷ cs) h = absurd (cc)
  gather_results-done ((j, scheduled) ∷ cs) h = absurd (cc)

  -- The dictionary has the results of the models, and no others.
  abbrev pub AnswersFor : (Ref → Bool) → Dict Ref (ModelPredictResult V) → Type 0
  AnswersFor asked out =
      (m : Ref)
      → (is_some (Dict.get m out) ≡ asked m)
        × ((p : ModelPredictResult V) → Dict.get m out ≡ some p → p.model_runner ≡ m)

  outcome-done :
      (ms : List Ref) (s : Calls V)
      → Tracks ms s
      → all_have_results s.running ≡ true
      → (out : Dict Ref (ModelPredictResult V)) × (outcome s ≡ some (some out))
        × AnswersFor (λ m. member m ms) out
  unfolding outcome collect_gathered
  outcome-done ms s t d =
      let (es, e, n) = gather_results-done s.running d in
      let (out, f, get) = collect_lem es n in
      let h : HaveResults ms (some es) = subst (HaveResults ms) e (
        subst (λ js. HaveResults js (gather_results s.running)) t.models
          (gather_results-HaveResults s.running t.named)) in
      (
        out,
        ap collect_gathered e ∙ ap some f,
        λ m. (ap is_some (get m) ∙ h n m, λ p q. last_result-model m es p (sym (get m) ∙ q)),
      )

module _ (V : Type 0) where
  models_of-schedule : (ms : List Ref) → models_of {V = V} (schedule ms) ≡ ms
  models_of-schedule [] = refl
  models_of-schedule (m ∷ ms) = ap (λ js. m ∷ js) (models_of-schedule ms)

  schedule-Named : (ms : List Ref) → All (Named {V = V}) (schedule ms)
  schedule-Named [] = tt
  schedule-Named (m ∷ ms) = (tt, schedule-Named ms)

-- The model stands in the dictionary of the running models.
abbrev pub is_running : Dict Key Ref → Ref → Bool
is_running [] m = false
is_running ((k, r) ∷ d) m = m == r || is_running d m

-- The models that a call asks for: those of a list that is given and not empty, and the running ones
-- otherwise.
abbrev pub was_asked : Option (List Ref) → Dict Key Ref → Ref → Bool
was_asked none d m = is_running d m
was_asked (some []) d m = is_running d m
was_asked (some (j ∷ js)) d m = member m (j ∷ js)

member-values : (m : Ref) (d : Dict Key Ref) → member m (Dict.values d) ≡ is_running d m
member-values m [] = refl
member-values m ((k, r) ∷ d) = ap (λ b. m == r || b) (member-values m d)

member-select_models :
    (m : Ref) (model_runs : Option (List Ref)) (d : Dict Key Ref)
    → member m (select_models model_runs d) ≡ was_asked model_runs d m
unfolding select_models
member-select_models m none d = member-values m d
member-select_models m (some []) d = member-values m d
member-select_models m (some (j ∷ js)) d = refl

module _ {V : Type 0} where
  -- A concurrent call returns when all its calls have finished, unless one of them came to `None`. It
  -- has a result for exactly the models that were asked for, or, if none were, for those that were
  -- running when it began, and each result is the one of its model: whatever turns the calls have taken, whatever
  -- other calls have written to the same runners, and whatever models were added, removed or
  -- replaced meanwhile.
  pub calls_answer_selected :
      (c : Config) (es : List (CallsEvent V)) (model_runs : Option (List Ref)) (w : World)
      → all_have_results (run_calls c es (start_calls model_runs w)).running ≡ true
      → (out : Dict Ref (ModelPredictResult V)) × (outcome
            (run_calls c es (start_calls model_runs w))
          ≡ some (some out))
        × AnswersFor (was_asked model_runs w.cluster.models_run) out
  unfolding start_calls
  calls_answer_selected c es model_runs w d =
      let ms = select_models model_runs w.cluster.models_run in
      let s : Calls V = start_calls model_runs w in
      let (out, e, answers) =
        outcome-done ms (run_calls c es s)
          (run_calls-Tracks c ms es s
            (record { models = models_of-schedule V ms; named = schedule-Named V ms }))
          d in
      (
        out,
        e,
        λ m.
            ((answers m).0 ∙ member-select_models m model_runs w.cluster.models_run, (answers m).1),
      )
