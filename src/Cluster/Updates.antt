-- ===== src/Cluster/Updates.antt =====
-- The handling of `init` and `update` events in model_cluster.py: which coroutines they start, and
-- what they change at once.
use model_runner_client.Base.{
  ℕ, Bool, false, ◌&&◌, ◌||◌, Option, none, some, List, [], ◌∷◌, ◌++◌, if◌then◌else◌, String,
}
use model_runner_client.Base.Eq.{◌==◌, nat_equality, string_equality, option_equality}
use model_runner_client.Dict
use model_runner_client.Dict.{Dict}
use model_runner_client.Runner.{Key, Infos}
use model_runner_client.Runner.Init.{infos_get}
use model_runner_client.Concurrent.{Ref}
use model_runner_client.Cluster.{Cluster, Task, add_scheduled, remove_scheduled, store, find_model}
use model_runner_client.Cluster.Coroutines.{model_factory}

-- An element of an event's `data`, as the code reads it with `.get`: a missing field and `null` are
-- both `none`, but for `model_id`, where a missing field is `none` and `null` is `some none`.
pub record ModelUpdate : Type 0 where
  pub deployment_id : Key
  pub model_id_field : Option Key
  pub infos : Option Infos
  pub state : Option String
  pub ip : Option String
  pub port : Option ℕ

-- `model_update.get("model_id")`
abbrev pub get_model_id : ModelUpdate → Key
get_model_id u = elim u.model_id_field [ none ↦ none | some k ↦ k ]

-- `infos.get("model_name") if infos else None`
abbrev pub get_model_name : ModelUpdate → Option String
get_model_name u = infos_get "model_name" u.infos

-- The model that the update is about, if its deployment is the one of the update.
unfoldable pub match_model : ModelUpdate → Cluster → Option Ref
unfolding find_model
match_model u s = elim (find_model (get_model_id u) s) [
  | none ↦ none
  | some r ↦ if u.deployment_id == (s.heap r).deployment_id then some r else none
]

-- The result of one turn of the loop: the state, and the coroutine that is appended to `tasks`.
-- `none` is the `ValueError` of the model factory.
abbrev pub Turn : Type 0
Turn = Option (Cluster × List Task)

-- The branches STOPPED and RECOVERING.
abbrev pub remove_matched : Option Ref → Cluster → Turn
remove_matched none s = some (s, [])
remove_matched (some r) s = some (s, remove_scheduled r ∷ [])

-- `tasks.append(self.add_model_runner(new_model_runner))`
unfoldable pub start_created : Option (Cluster × Ref) → Turn
start_created none = none
start_created (some (s, r)) = some (s, add_scheduled r ∷ [])

-- Connects to a model that is new or has a new address.
unfoldable pub connect_model : ModelUpdate → Cluster → Turn
unfolding model_factory start_created
connect_model u s =
    start_created
      (model_factory u.deployment_id (get_model_id u) (get_model_name u) u.ip u.port u.infos s)

-- `model_runner.infos = infos; model_runner.model_name = model_name`
unfoldable pub update_infos : ModelUpdate → Ref → Cluster → Cluster
unfolding store
update_infos u r s =
    store r (record (s.heap r) { infos = u.infos; model_name = get_model_name u }) s

-- The branch RUNNING.
unfoldable pub run_matched : ModelUpdate → Option Ref → Cluster → Turn
unfolding connect_model update_infos
run_matched u none s = connect_model u s
run_matched u (some r) s =
    if (s.heap r).ip == u.ip && (s.heap r).port == u.port
    then (if Dict.has (get_model_id u) s.models_run
        then some (update_infos u r s, [])
        else some (s, []))
    else connect_model u s

unfoldable pub update_model_run : ModelUpdate → Cluster → Turn
unfolding match_model run_matched
update_model_run u s =
    if u.state == some "STOPPED"
    then remove_matched (match_model u s) s
    else if u.state == some "RECOVERING"
    then remove_matched (match_model u s) s
    else if u.state == some "RUNNING"
    then run_matched u (match_model u s) s
    else some (s, [])

-- The rest of the loop, `k`, after a turn.
unfoldable pub collect_turn :
    Turn → Cluster → (Cluster → Cluster × Option (List Task)) → Cluster × Option (List Task)
collect_turn none s k = (s, none)
collect_turn (some (s', ts)) s k =
    let (s'', rest) = k s' in (s'', elim rest [ none ↦ none | some ts' ↦ some (ts ++ ts') ])

-- `update_model_runs` up to `asyncio.gather`. An exception leaves the changes that were made before
-- it, and the coroutines that were collected are never started.
unfoldable pub update_model_runs : List ModelUpdate → Cluster → Cluster × Option (List Task)
unfolding update_model_run collect_turn
update_model_runs [] s = (s, some [])
update_model_runs (u ∷ us) s = collect_turn (update_model_run u s) s (update_model_runs us)

-- `{model['model_id'] for model in data}`; `none` is the `KeyError`.
unfoldable pub data_model_ids : List ModelUpdate → Option (List Key)
data_model_ids [] = some []
data_model_ids (u ∷ us) = elim u.model_id_field [
  | none ↦ none
  | some k ↦ elim (data_model_ids us) [ none ↦ none | some ks ↦ some (k ∷ ks) ]
]

abbrev pub contains : Key → List Key → Bool
contains k [] = false
contains k (j ∷ js) = k == j || contains k js

-- `self.remove_model_runner(self.models_run[model_id])`
unfoldable pub remove_model : Key → Dict Key Ref → List Task
remove_model k d = elim (Dict.get k d) [ none ↦ [] | some r ↦ remove_scheduled r ∷ [] ]

-- The coroutines for those of the keys that are not among the ids.
unfoldable pub remove_missing : List Key → List Key → Dict Key Ref → List Task
unfolding remove_model
remove_missing ids [] d = []
remove_missing ids (k ∷ ks) d =
    let rest = remove_missing ids ks d in if contains k ids then rest else remove_model k d ++ rest

-- The rest of `handle_init_event` after `update_model_runs`; `none` is the `KeyError`.
unfoldable pub finish_init_event : List ModelUpdate → Cluster → Option (List Task)
unfolding data_model_ids remove_missing
finish_init_event us s = elim (data_model_ids us) [
  | none ↦ none
  | some ids ↦ some (remove_missing ids (Dict.keys s.models_run) s.models_run)
]
