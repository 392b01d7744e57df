-- ===== src/Cluster/Removed.antt =====
-- One removal of model_cluster.py that nobody interferes with, and the removals that
-- `handle_init_event` starts.
use model_runner_client.Base.{
  ◌≡◌, refl, ap, ◌∙◌, Option, none, some, List, [], ◌∷◌, if◌then◌else◌, is_some, arith, ◌⊎◌,
}
use model_runner_client.Base.Eq.{
  ◌==◌, nat_equality, string_equality, option_equality, option_beq_iff,
}
use model_runner_client.Dict
use model_runner_client.Dict.{Dict, get-delete}
use model_runner_client.Runner.{Key, close}
use model_runner_client.Runner.Init.{both_open}
use model_runner_client.Concurrent.{Ref}
use model_runner_client.Cluster.{
  Cluster, Task, remove_scheduled, store, drop_entry, start_remove, remove_entries,
}
use model_runner_client.Cluster.Coroutines.{go, resume, after_remove}
use model_runner_client.Cluster.Frame.{key_beq_iff}
use model_runner_client.Cluster.Updates.{
  ModelUpdate, contains, data_model_ids, remove_model, remove_missing, finish_init_event,
}

-- The two turns of a removal that nobody interferes with.
abbrev pub finish : Task → Cluster → Cluster
finish t s = let (s1, t1) = resume t (go both_open) s in (resume t1 (go both_open) s1).0

-- The tasks of a `gather`, one after the other.
abbrev pub finish_all : List Task → Cluster → Cluster
finish_all [] s = s
finish_all (t ∷ ts) s = finish_all ts (finish t s)

pub removed : Ref → Cluster → Cluster
removed r s = remove_entries r (store r (close (s.heap r)) s)

pub finish-remove_scheduled : (r : Ref) (s : Cluster) → finish (remove_scheduled r) s ≡ removed r s
unfolding resume start_remove after_remove removed
finish-remove_scheduled r s = refl

pub removed-model_id :
    (r q : Ref) (s : Cluster) → ((removed r s).heap q).model_id ≡ (s.heap q).model_id
unfolding removed remove_entries store close
removed-model_id r q s = ground arith

pub get-drop_entry :
    (j k : Key) (r : Ref) (d : Dict Key Ref)
    → (Dict.get k d ≡ some r) ⊎ (Dict.get k d ≡ none)
    → Dict.get j (drop_entry k r d) ≡ (if j == k then none else Dict.get j d)
unfolding drop_entry
get-drop_entry j k r d h = ground (
  arith,
  h,
  get-delete j k d,
  key_beq_iff j k,
  option_beq_iff nat_equality (Dict.get k d) (some r),
)

pub get-removed :
    (j k : Key) (r : Ref) (s : Cluster)
    → (s.heap r).model_id ≡ k
    → (Dict.get k s.models_run ≡ some r) ⊎ (Dict.get k s.models_run ≡ none)
    → Dict.get j (removed r s).models_run ≡ (if j == k then none else Dict.get j s.models_run)
unfolding removed remove_entries store
get-removed j k r s e h =
    ap (λ i. Dict.get j (drop_entry i r s.models_run)) (removed-model_id r r s ∙ e)
    ∙ get-drop_entry j k r s.models_run h

pub get-keys : (j : Key) (d : Dict Key Ref) → is_some (Dict.get j d) ≡ contains j (Dict.keys d)
unfolding Dict.get
get-keys j [] = refl
get-keys j ((k, r) ∷ d) = ground (arith, get-keys j d)

pub remove_model_is :
    (k : Key) (d : Dict Key Ref) (o : Option Ref)
    → Dict.get k d ≡ o
    → remove_model k d ≡ elim o [ none ↦ [] | some r ↦ remove_scheduled r ∷ [] ]
unfolding remove_model
remove_model_is k d o e =
    ap
      (λ (o : Option Ref). elim o as (λ _. List Task) [
        | none ↦ []
        | some r ↦ remove_scheduled r ∷ []
      ])
      e

pub finish_init_event_is :
    (us : List ModelUpdate) (s : Cluster) (ids : List Key)
    → data_model_ids us ≡ some ids
    → finish_init_event us s ≡ some (remove_missing ids (Dict.keys s.models_run) s.models_run)
unfolding finish_init_event
finish_init_event_is us s ids e =
    ap
      (λ (o : Option (List Key)). elim o as (λ _. Option (List Task)) [
        | none ↦ none
        | some ids ↦ some (remove_missing ids (Dict.keys s.models_run) s.models_run)
      ])
      e
