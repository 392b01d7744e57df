-- ===== src/Cluster/Rule.antt =====
-- Rules for `update_model_runs` and `handle_init_event` in model_cluster.py: what holds for each of the
-- changes that a turn of the loop can make, and for turns in a row, holds for the loop.
use model_runner_client.Base.{
  ◌≡◌, refl, ◌&&◌, Option, none, some, List, [], ◌∷◌, ◌++◌, Bool-cases, Option-cases, inl, inr,
  false, All, All-append,
}
use model_runner_client.Base.Eq.{◌==◌, nat_equality, string_equality, option_equality}
use model_runner_client.Dict
use model_runner_client.Dict.{Dict}
use model_runner_client.Runner.{Key}
use model_runner_client.Concurrent.{Ref}
use model_runner_client.Cluster.{Cluster, Task, add_scheduled, remove_scheduled}
use model_runner_client.Cluster.Coroutines.{model_factory}
use model_runner_client.Cluster.Updates.{
  ModelUpdate, get_model_id, get_model_name, match_model, Turn, remove_matched, connect_model,
  update_infos, run_matched, update_model_run, update_model_runs, start_created, collect_turn,
  contains, data_model_ids, remove_model, remove_missing, finish_init_event,
}
use model_runner_client.Cluster.World.{some_tasks}

-- `R s s' ts`: from the state `s` the loop has come to `s'`, and has collected `ts`.
pub record IsLoopRule (R : Cluster → Cluster → List Task → Type 0) : Type 0 where
  pub stays : (s : Cluster) → R s s []
  pub removes :
      (u : ModelUpdate) (s : Cluster) (r : Ref)
      → match_model u s ≡ some r
      → R s s (remove_scheduled r ∷ [])
  pub updates : (u : ModelUpdate) (s : Cluster) (r : Ref) → R s (update_infos u r s) []
  pub creates :
      (u : ModelUpdate) (s s' : Cluster) (r : Ref)
      → model_factory u.deployment_id (get_model_id u) (get_model_name u) u.ip u.port u.infos s
        ≡ some (s', r)
      → R s s' (add_scheduled r ∷ [])
  pub goes_on : (s t u : Cluster) (ts us : List Task) → R s t ts → R t u us → R s u (ts ++ us)
  -- the coroutines are not started after all
  pub drops : (s t : Cluster) (ts : List Task) → R s t ts → R s t []

module _ (R : Cluster → Cluster → List Task → Type 0) (rule : IsLoopRule R) where
  abbrev OfTurn : Cluster → Turn → Type 0
  OfTurn s none = Unit
  OfTurn s (some (s', ts)) = R s s' ts

  remove_matched-OfTurn :
      (u : ModelUpdate) (o : Option Ref) (s : Cluster)
      → match_model u s ≡ o
      → OfTurn s (remove_matched o s)
  remove_matched-OfTurn u none s e = rule.stays s
  remove_matched-OfTurn u (some r) s e = rule.removes u s r e

  start_created-OfTurn :
      (u : ModelUpdate) (o : Option (Cluster × Ref)) (s : Cluster)
      → model_factory u.deployment_id (get_model_id u) (get_model_name u) u.ip u.port u.infos s ≡ o
      → OfTurn s (start_created o)
  unfolding start_created
  start_created-OfTurn u none s e = tt
  start_created-OfTurn u (some (s', r)) s e = rule.creates u s s' r e

  connect_model-OfTurn : (u : ModelUpdate) (s : Cluster) → OfTurn s (connect_model u s)
  unfolding connect_model
  connect_model-OfTurn u s = start_created-OfTurn u _ s refl

  run_matched-OfTurn :
      (u : ModelUpdate) (o : Option Ref) (s : Cluster) → OfTurn s (run_matched u o s)
  unfolding run_matched
  run_matched-OfTurn u none s = connect_model-OfTurn u s
  run_matched-OfTurn u (some r) s =
      elim (Bool-cases ((s.heap r).ip == u.ip && (s.heap r).port == u.port)) [
        | inr e ↦ rw e (connect_model-OfTurn u s)
        | inl e ↦ elim (Bool-cases (Dict.has (get_model_id u) s.models_run)) [
          | inr f ↦ rw (e, f) (rule.stays s)
          | inl f ↦ rw (e, f) (rule.updates u s r)
        ]
      ]

  update_model_run-OfTurn : (u : ModelUpdate) (s : Cluster) → OfTurn s (update_model_run u s)
  unfolding update_model_run
  update_model_run-OfTurn u s =
      let matched = remove_matched-OfTurn u (match_model u s) s refl in
      elim (Bool-cases (u.state == some "STOPPED")) [
        | inl e ↦ simp e matched
        | inr e ↦ elim (Bool-cases (u.state == some "RECOVERING")) [
          | inl f ↦ simp (e, f) matched
          | inr f ↦ elim (Bool-cases (u.state == some "RUNNING")) [
            | inl g ↦ simp (e, f, g) (run_matched-OfTurn u (match_model u s) s)
            | inr g ↦ simp (e, f, g) (rule.stays s)
          ]
        ]
      ]

  collected :
      (s t u : Cluster) (ts : List Task) (rest : Option (List Task))
      → R s t ts
      → R t u (some_tasks rest)
      → R s u (some_tasks (elim rest [ none ↦ none | some us ↦ some (ts ++ us) ]))
  collected s t u ts none a b = rule.drops s u (ts ++ []) (rule.goes_on s t u ts [] a b)
  collected s t u ts (some us) a b = rule.goes_on s t u ts us a b

  collect_turn-holds :
      (o : Turn) (s : Cluster) (k : Cluster → Cluster × Option (List Task))
      → OfTurn s o
      → ((t : Cluster) → R t (k t).0 (some_tasks (k t).1))
      → R s (collect_turn o s k).0 (some_tasks (collect_turn o s k).1)
  unfolding collect_turn
  collect_turn-holds none s k a h = rule.stays s
  collect_turn-holds (some (t, ts)) s k a h = collected s t (k t).0 ts (k t).1 a (h t)

  pub update_model_runs-holds :
      (us : List ModelUpdate) (s : Cluster)
      → R s (update_model_runs us s).0 (some_tasks (update_model_runs us s).1)
  unfolding update_model_runs
  update_model_runs-holds [] s = rule.stays s
  update_model_runs-holds (u ∷ us) s =
      collect_turn-holds (update_model_run u s) s (update_model_runs us)
        (update_model_run-OfTurn u s) (update_model_runs-holds us)

-- The same for the removals after an `init` event: what holds of the removal of each entry that is not
-- named, holds of all that are started.
module _ (P : Task → Type 0) (ids : List Key) (d : Dict Key Ref)
    (each : (k : Key) (r : Ref)
      → Dict.get k d ≡ some r
      → contains k ids ≡ false
      → P (remove_scheduled r)) where
  remove_model-All :
      (k : Key) (o : Option Ref)
      → Dict.get k d ≡ o
      → contains k ids ≡ false
      → All P (remove_model k d)
  unfolding remove_model
  remove_model-All k none e c = rw (e, remove_model) tt
  remove_model-All k (some r) e c = rw (e, remove_model) (each k r e c, tt)

  pub remove_missing-All : (ks : List Key) → All P (remove_missing ids ks d)
  unfolding remove_missing
  remove_missing-All [] = tt
  remove_missing-All (k ∷ ks) = elim (Bool-cases (contains k ids)) [
    | inl e ↦ rw e (remove_missing-All ks)
    | inr e ↦ rw e (
        All-append P (remove_model k d) (remove_missing ids ks d)
          (remove_model-All k (Dict.get k d) refl e) (remove_missing-All ks))
  ]

pub finish_init_event-All :
    (P : Task → Type 0) (us : List ModelUpdate) (s : Cluster)
    → ((k : Key) (r : Ref) → Dict.get k s.models_run ≡ some r → P (remove_scheduled r))
    → All P (some_tasks (finish_init_event us s))
unfolding finish_init_event
finish_init_event-All P us s each = elim (Option-cases (data_model_ids us)) [
  | inl e ↦ rw (e, finish_init_event) tt
  | inr (ids, e) ↦
      rw (e, finish_init_event)
        (remove_missing-All P ids s.models_run (λ k r f c. each k r f) (Dict.keys s.models_run))
]
