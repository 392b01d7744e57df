-- ===== src/Cluster/Gathered.antt =====
-- What the second part of `handle_init_event` of model_cluster.py leaves in `models_run` when its
-- `gather` has ended.
use model_runner_client.Base.{
  ℕ, suc, ◌≡◌, refl, sym, ap, ◌∙◌, subst, true, false, Option, none, some, List, [], ◌∷◌, ◌++◌,
  if◌then◌else◌, is_some, map, Bool-cases, Option-cases, inl, inr, get_elem?, All, All-get_elem?,
}
use mathlib.Core.Option.{some-injective}
use model_runner_client.Base.Eq.{◌==◌, nat_equality, string_equality, option_equality}
use model_runner_client.Dict
use model_runner_client.Dict.{Dict}
use model_runner_client.Runner.{Key}
use model_runner_client.Concurrent.{Ref}
use model_runner_client.Cluster.{Cluster, Task, remove_scheduled, finished}
use model_runner_client.Cluster.Frame.{key_beq_iff}
use model_runner_client.Cluster.WellFormed.{IsWellFormed}
use model_runner_client.Cluster.Updates.{
  ModelUpdate, contains, data_model_ids, remove_model, remove_missing, finish_init_event,
}
use model_runner_client.Cluster.Rule.{remove_missing-All}
use model_runner_client.Cluster.World.{World, Event, run}
use model_runner_client.Cluster.Removed.{get-keys, remove_model_is, finish_init_event_is}
use model_runner_client.Cluster.AnyOrder.{
  IsBeside, IsRemoval, HasStage, HasStage-mono, Removes, moved, Shrinks-heap, resume-Advances,
}
use model_runner_client.Cluster.Coroutines.{Answer, resume}
use model_runner_client.Cluster.World.{
  turn, update, init_end, spawn, socket, counts, turn_task, step,
}
use model_runner_client.Cluster.{store}
use model_runner_client.Base.{All-set, arith}

module _ (ids : List Key) (d : Dict Key Ref) where
  turn_task-Removes :
      (i : ℕ) (a : Answer) (o : Option Task) (w : World)
      → get_elem? w.tasks i ≡ o
      → Removes ids d w
      → Removes ids d (turn_task i a o w)
  unfolding turn_task
  turn_task-Removes i a none w e h = h
  turn_task-Removes i a (some t) w e h =
      let (s, t') = resume t a w.cluster in
      let v =
        resume-Advances ids d t a w.cluster
          (All-get_elem? (IsRemoval ids d) w.tasks i t h.removals e) h.shrinks in
      record {
        shrinks = v.still;
        kept = λ k c. v.named k c ∙ h.kept k c;
        removals = All-set (IsRemoval ids d) w.tasks i t' h.removals v.removal;
        covers = λ k r f c.
            let (j, p) = h.covers k r f c in
            (
              j,
              moved (HasStage ids d w.cluster.models_run k r) (HasStage ids d s.models_run k r)
                  w.tasks i j t t' e
                  (λ x. HasStage-mono ids d w.cluster.models_run s.models_run k r x (v.gone k))
                  (v.onward k r f) p,
            );
      }

  step-Removes : (e : Event) (w : World) → IsBeside e → Removes ids d w → Removes ids d (step e w)
  unfolding step store
  step-Removes (turn i a) w b h = turn_task-Removes i a (get_elem? w.tasks i) w refl h
  step-Removes (socket c) w b h = record {
    shrinks = Shrinks-heap ids d w.cluster _ refl (λ q. refl) h.shrinks;
    kept = h.kept;
    removals = h.removals;
    covers = h.covers;
  }
  step-Removes (counts r failures timeouts cooldown) w b h = record {
    shrinks = Shrinks-heap ids d w.cluster _ refl (λ q. ground arith) h.shrinks;
    kept = h.kept;
    removals = h.removals;
    covers = h.covers;
  }
  step-Removes (update us) w b h = absurd b
  step-Removes (init_end us) w b h = absurd b
  step-Removes (spawn r action) w b h = absurd b

  run-Removes :
      (es : List Event) (w : World) → All IsBeside es → Removes ids d w → Removes ids d (run es w)
  unfolding run
  run-Removes [] w b h = h
  run-Removes (e ∷ es) w b h = run-Removes es (step e w) b.1 (step-Removes e w b.0 h)

  abbrev Scheduled : Ref → List Task → Type 0
  Scheduled r ts = (i : ℕ) × (get_elem? ts i ≡ some (remove_scheduled r))

  Scheduled-append : (r : Ref) (ts us : List Task) → Scheduled r us → Scheduled r (ts ++ us)
  Scheduled-append r [] us h = h
  Scheduled-append r (t ∷ ts) us h = let (i, e) = Scheduled-append r ts us h in (suc i, e)

  -- The runner of each key that the event does not name is scheduled.
  remove_missing-Scheduled :
      (ks : List Key) (k : Key) (r : Ref)
      → contains k ks ≡ true
      → Dict.get k d ≡ some r
      → contains k ids ≡ false
      → Scheduled r (remove_missing ids ks d)
  unfolding remove_missing
  remove_missing-Scheduled [] k r h e c = cc
  remove_missing-Scheduled (j ∷ ks) k r h e c = elim (Bool-cases (k == j)) [
    | inl f ↦
        let same = (key_beq_iff k j).0 f in
        let named : contains j ids ≡ false = subst (λ x. contains x ids ≡ false) same c in
        let get : Dict.get j d ≡ some r = subst (λ x. Dict.get x d ≡ some r) same e in
        rw (named, remove_model_is j d (some r) get) (0, refl)
    | inr f ↦
        let rest = remove_missing-Scheduled ks k r (rw f at h) e c in
        elim (Bool-cases (contains j ids)) [
          | inl g ↦ rw g rest
          | inr g ↦ rw g (Scheduled-append r (remove_model j d) (remove_missing ids ks d) rest)
        ]
  ]

  Scheduled-HasStage :
      (m : Dict Key Ref) (k : Key) (r : Ref) (ts : List Task)
      → Scheduled r ts
      → (i : ℕ) × HasStage ids d m k r (get_elem? ts i)
  Scheduled-HasStage m k r ts (i, e) = (i, rw e refl)

  finished-gone :
      (m : Dict Key Ref) (k : Key) (r : Ref) (ts : List Task) (i : ℕ) (o : Option Task)
      → get_elem? ts i ≡ o
      → All (λ t. t ≡ finished) ts
      → HasStage ids d m k r o
      → Dict.get k m ≡ none
  finished-gone m k r ts i none e f p = absurd p
  finished-gone m k r ts i (some t) e f p =
      subst (λ x. HasStage ids d m k r (some x)) (All-get_elem? (λ t. t ≡ finished) ts i t f e) p

  start-Removes :
      (s : Cluster)
      → s.models_run ≡ d
      → IsWellFormed s
      → Removes ids d (record { cluster = s; tasks = remove_missing ids (Dict.keys d) d })
  start-Removes s e w = record {
    shrinks = record {
      same_ids = λ j r f. (w.running j r (ap (Dict.get j) e ∙ f)).1;
      left = λ j r f. inl (ap (Dict.get j) e ∙ f);
      no_more = λ j f. ap (Dict.get j) e ∙ f;
    };
    kept = λ k c. ap (Dict.get k) e;
    removals = remove_missing-All (IsRemoval ids d) ids d (λ k r f c. (k, f, c)) (Dict.keys d);
    covers = λ k r f c.
        Scheduled-HasStage s.models_run k r (remove_missing ids (Dict.keys d) d)
          (remove_missing-Scheduled (Dict.keys d) k r (sym (get-keys k d) ∙ ap is_some f) f c);
  }

  ended :
      (w : World) (k : Key)
      → Removes ids d w
      → All (λ t. t ≡ finished) w.tasks
      → Dict.get k w.cluster.models_run ≡ (if contains k ids then Dict.get k d else none)
  ended w k h f = elim (Bool-cases (contains k ids)) [
    | inl c ↦ rw c (h.kept k c)
    | inr c ↦ rw c (elim (Option-cases (Dict.get k d)) [
      | inl e ↦ h.shrinks.no_more k e
      | inr (r, e) ↦
          let (i, p) = h.covers k r e c in
          finished-gone w.cluster.models_run k r w.tasks i (get_elem? w.tasks i) refl f p
    ])
  ]

data_model_ids_lem :
    (us : List ModelUpdate) (ids : List Key)
    → map (λ u. u.model_id_field) us ≡ map some ids
    → data_model_ids us ≡ some ids
unfolding data_model_ids
data_model_ids_lem [] [] e = refl
data_model_ids_lem [] (k ∷ ids) e = cc
data_model_ids_lem (u ∷ us) [] e = cc
data_model_ids_lem (u ∷ us) (k ∷ ids) e =
    let head : u.model_id_field ≡ some k = cc in
    let rest : map (λ (u : ModelUpdate). u.model_id_field) us ≡ map some ids = cc in
    rw (head, data_model_ids_lem us ids rest) refl

-- If the models of an `init` event all have an id, and both dictionaries are indexed by the ids of
-- existing runners, then the second part of its handling starts removals such that, whatever the order of their turns, and whatever changes of the connection and
-- counters of calls come between, when all of them have finished, `models_run` has exactly its entries of
-- before whose id the event names.
pub init_event_leaves :
    (us : List ModelUpdate) (s : Cluster) (ids : List Key) (ts : List Task) (es : List Event)
    (k : Key)
    → IsWellFormed s
    → map (λ u. u.model_id_field) us ≡ map some ids
    → finish_init_event us s ≡ some ts
    → All IsBeside es
    → All (λ t. t ≡ finished) (run es (record { cluster = s; tasks = ts })).tasks
    → Dict.get k (run es (record { cluster = s; tasks = ts })).cluster.models_run
      ≡ (if contains k ids then Dict.get k s.models_run else none)
init_event_leaves us s ids ts es k w e f b g =
    let d = s.models_run in
    let same : remove_missing ids (Dict.keys d) d ≡ ts =
      some-injective _ ts (sym (finish_init_event_is us s ids (data_model_ids_lem us ids e)) ∙ f) in
    let h : Removes ids d (record { cluster = s; tasks = ts }) =
      subst (λ (ts : List Task). Removes ids d (record { cluster = s; tasks = ts })) same
        (start-Removes ids d s refl w) in
    ended ids d (run es (record { cluster = s; tasks = ts })) k
      (run-Removes ids d es (record { cluster = s; tasks = ts }) b h) g
