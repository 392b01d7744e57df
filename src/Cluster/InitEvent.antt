-- ===== src/Cluster/InitEvent.antt =====
-- What the second part of `handle_init_event` of model_cluster.py leaves in `models_run`.
use model_runner_client.Base.{
  ◌≡◌, refl, sym, ap, ◌∙◌, subst, Bool, true, false, not, ◌&&◌, Option, none, some, List, [], ◌∷◌,
  ◌++◌, if◌then◌else◌, is_some, arith, Bool-cases, Option-cases, inl, inr, ◌⊎◌,
}
use model_runner_client.Base.Eq.{◌==◌, nat_equality, string_equality, option_equality}
use model_runner_client.Dict
use model_runner_client.Dict.{Dict, get-delete}
use model_runner_client.Runner.{Key}
use model_runner_client.Concurrent.{Ref}
use model_runner_client.Cluster.{Cluster, Task}
use model_runner_client.Cluster.Frame.{key_beq_iff}
use model_runner_client.Cluster.WellFormed.{IsWellFormed}
use model_runner_client.Cluster.Updates.{
  ModelUpdate, contains, data_model_ids, remove_model, remove_missing, finish_init_event,
}
use model_runner_client.Cluster.Removed.{
  finish_all, removed, finish-remove_scheduled, removed-model_id, get-removed, get-keys,
  remove_model_is, finish_init_event_is,
}

both :
    (a b : Bool) (o : Option Ref)
    → (if a then none else (if b then none else o)) ≡ (if (if b then true else a) then none else o)
both a b o = ground arith

without :
    (a b : Bool) (o : Option Ref)
    → (b ≡ true → o ≡ none)
    → (if a then none else o) ≡ (if (if b then true else a) then none else o)
without a b o h = ground (arith, h)

module _ (ids : List Key) (d : Dict Key Ref) where
  -- What is left of `d`, in a state that knows the runners of `d` by their ids.
  pub record Shrinks (s : Cluster) : Type 0 where
    pub same_ids : (k : Key) (r : Ref) → Dict.get k d ≡ some r → (s.heap r).model_id ≡ k
    pub left :
        (k : Key) (r : Ref)
        → Dict.get k d ≡ some r
        → (Dict.get k s.models_run ≡ some r) ⊎ (Dict.get k s.models_run ≡ none)
    pub no_more : (k : Key) → Dict.get k d ≡ none → Dict.get k s.models_run ≡ none

  removed-Shrinks :
      (k : Key) (r : Ref) (s : Cluster) → Dict.get k d ≡ some r → Shrinks s → Shrinks (removed r s)
  removed-Shrinks k r s e h =
      let get : (j : Key)
          → Dict.get j (removed r s).models_run
            ≡ (if j == k then none else Dict.get j s.models_run) =
        λ j. get-removed j k r s (h.same_ids k r e) (h.left k r e) in
      record {
        same_ids = λ j q f. removed-model_id r q s ∙ h.same_ids j q f;
        left = λ j q f. ground (arith, get j, h.left j q f);
        no_more = λ j f. ground (arith, get j, h.no_more j f);
      }

  abbrev gone : Key → List Key → Bool
  gone j ks = contains j ks && not (contains j ids)

  gone-kept : (j k : Key) (ks : List Key) → contains k ids ≡ true → gone j (k ∷ ks) ≡ gone j ks
  gone-kept j k ks e = elim (Bool-cases (j == k)) [
    | inl f ↦
        let i : contains j ids ≡ true =
          subst (λ i. contains i ids ≡ true) (sym ((key_beq_iff j k).0 f)) e in
        ground arith
    | inr f ↦ rw f refl
  ]

  gone-dropped :
      (j k : Key) (ks : List Key)
      → contains k ids ≡ false
      → gone j (k ∷ ks) ≡ (if j == k then true else gone j ks)
  gone-dropped j k ks e = elim (Bool-cases (j == k)) [
    | inl f ↦
        let i : contains j ids ≡ false =
          subst (λ i. contains i ids ≡ false) (sym ((key_beq_iff j k).0 f)) e in
        rw (f, i) refl
    | inr f ↦ rw f refl
  ]

  abbrev Left : Cluster → List Key → Cluster → Type 0
  Left s ks t =
      (j : Key) → Dict.get j t.models_run ≡ (if gone j ks then none else Dict.get j s.models_run)

  remove_model-Left :
      (k : Key) (o : Option Ref) (ks : List Key) (rest : List Task) (s : Cluster)
      → Dict.get k d ≡ o
      → contains k ids ≡ false
      → Shrinks s
      → ((t : Cluster) → Shrinks t → Left t ks (finish_all rest t))
      → Left s (k ∷ ks) (finish_all (remove_model k d ++ rest) s)
  remove_model-Left k none ks rest s e c h rec = λ j.
      let absent : (j == k) ≡ true → Dict.get j s.models_run ≡ none = λ f.
        subst (λ i. Dict.get i s.models_run ≡ none) (sym ((key_beq_iff j k).0 f)) (h.no_more k e) in
      ap (λ ts. Dict.get j (finish_all (ts ++ rest) s).models_run) (remove_model_is k d none e)
      ∙ rec s h j
      ∙ without (gone j ks) (j == k) (Dict.get j s.models_run) absent
      ∙ ap (λ b. if b then none else Dict.get j s.models_run) (sym (gone-dropped j k ks c))
  remove_model-Left k (some r) ks rest s e c h rec = λ j.
      ap (λ ts. Dict.get j (finish_all (ts ++ rest) s).models_run) (remove_model_is k d (some r) e)
      ∙ ap (λ t. Dict.get j (finish_all rest t).models_run) (finish-remove_scheduled r s)
      ∙ rec (removed r s) (removed-Shrinks k r s e h) j
      ∙ ap (λ o. if gone j ks then none else o)
          (get-removed j k r s (h.same_ids k r e) (h.left k r e))
      ∙ both (gone j ks) (j == k) (Dict.get j s.models_run)
      ∙ ap (λ b. if b then none else Dict.get j s.models_run) (sym (gone-dropped j k ks c))

  remove_missing-Left :
      (ks : List Key) (s : Cluster) → Shrinks s → Left s ks (finish_all (remove_missing ids ks d) s)
  unfolding remove_missing
  remove_missing-Left [] s h = λ j. refl
  remove_missing-Left (k ∷ ks) s h = elim (Bool-cases (contains k ids)) [
    | inl e ↦ rw e (λ j.
        remove_missing-Left ks s h j
        ∙ ap (λ b. if b then none else Dict.get j s.models_run) (sym (gone-kept j k ks e)))
    | inr e ↦ rw e (
        remove_model-Left k (Dict.get k d) ks (remove_missing ids ks d) s refl e h
          (remove_missing-Left ks))
  ]

named :
    (k : Key) (ids : List Key) (d : Dict Key Ref)
    → (if contains k (Dict.keys d) && not (contains k ids) then none else Dict.get k d)
      ≡ (if contains k ids then Dict.get k d else none)
named k ids d = elim (Option-cases (Dict.get k d)) [
  | inl e ↦ rw e (ground arith)
  | inr (r, e) ↦
      let h : contains k (Dict.keys d) ≡ true = sym (get-keys k d) ∙ ap is_some e in
      rw (h, e) (ground arith)
]

-- If the models of an `init` event all have an id, then the removals that its second part starts, one
-- after the other and with nothing in between, leave in `models_run` exactly the entries whose id
-- the event names.
pub init_event_removes :
    (us : List ModelUpdate) (s : Cluster) (ids : List Key) (k : Key)
    → IsWellFormed s
    → data_model_ids us ≡ some ids
    → (ts : List Task) × (finish_init_event us s ≡ some ts)
      × (Dict.get k (finish_all ts s).models_run
          ≡ (if contains k ids then Dict.get k s.models_run else none))
init_event_removes us s ids k w e =
    let d = s.models_run in
    let h : Shrinks ids d s = record {
      same_ids = λ j r f. (w.running j r f).1;
      left = λ j r f. inl f;
      no_more = λ j f. f;
    } in
    (
      remove_missing ids (Dict.keys d) d,
      finish_init_event_is us s ids e,
      remove_missing-Left ids d (Dict.keys d) s h k ∙ named k ids d,
    )
