-- ===== src/Cluster/Quiet.antt =====
-- The loop over the updates of an event in model_cluster.py leaves both dictionaries as they are, and
-- starts no coroutine that adds a runner which exists already.
use native.Mathlib.Nat.{le_trans, le_refl}
use model_runner_client.Base.{◌<◌, ◌≤◌, ◌≡◌, refl, ◌∙◌, false, List}
use model_runner_client.Base.Eq.{nat_equality, string_equality, option_equality}
use model_runner_client.Concurrent.{Ref}
use model_runner_client.Cluster.{Cluster, Task}
use model_runner_client.Cluster.WellFormed.{IsWellFormed, IsWellFormed-store}
use model_runner_client.Cluster.World.{some_tasks}
use model_runner_client.Cluster.Updates.{
  ModelUpdate, get_model_id, get_model_name, update_infos, update_model_runs,
}
use model_runner_client.Cluster.Spares.{adds, ne_beq}
use model_runner_client.Cluster.Removal.{model_factory-IsApart}
use model_runner_client.Cluster.Updates.{finish_init_event}
use model_runner_client.Cluster.Frame.{store-Extends}
use model_runner_client.Cluster.Turns.{model_factory-IsNew}
use model_runner_client.Cluster.Rule.{IsLoopRule, update_model_runs-holds, finish_init_event-All}
use model_runner_client.Base.{◌++◌, All, All-append}

-- No task of the list is about to add `q`.
abbrev pub NoneAdds : Ref → List Task → Type 0
NoneAdds q ts = All (λ t. adds t q ≡ false) ts

module _ (q : Ref) where
  pub NoneAdds-append :
      (ts ts' : List Task) → NoneAdds q ts → NoneAdds q ts' → NoneAdds q (ts ++ ts')
  NoneAdds-append ts ts' a b = All-append (λ t. adds t q ≡ false) ts ts' a b

  -- The loop over the updates leaves the dictionaries, and starts nothing for `q`.
  abbrev IsApartLoop : Cluster → Cluster → List Task → Type 0
  IsApartLoop s s' ts =
      IsWellFormed s
      → q < s.next
      → (s'.models_run ≡ s.models_run)
        × (s'.pending_model_runs ≡ s.pending_model_runs)
        × NoneAdds q ts
        × IsWellFormed s'
        × (s.next ≤ s'.next)

  IsApartLoop-rule : IsLoopRule IsApartLoop
  IsApartLoop-rule = record {
    stays = λ s w h. (refl, refl, tt, w, le_refl _);
    removes = λ u s r e w h. (refl, refl, (refl, tt), w, le_refl _);
    updates = λ u s r w h.
        let m = record (s.heap r) { infos = u.infos; model_name = get_model_name u } in
        unfold update_infos in
        (refl, refl, tt, IsWellFormed-store r m s refl w, (store-Extends r m s refl).grows);
    creates = λ u s s' r e w h.
        let k = get_model_id u in
        let (n, x, y) =
          model_factory-IsApart q u.deployment_id k (get_model_name u) u.ip u.port u.infos s (s', r)
            h e in
        let (g, v, b) =
          model_factory-IsNew u.deployment_id k (get_model_name u) u.ip u.port u.infos s (s', r) w
            e in
        (x, y, (ne_beq q r n, tt), v, g.grows);
    goes_on = λ s t u ts us a b w h.
        let (x, y, n, v, g) = a w h in
        let (x', y', n', v', g') = b v (le_trans h g) in
        (x' ∙ x, y' ∙ y, NoneAdds-append ts us n n', v', le_trans g g');
    drops = λ s t ts a w h. let (x, y, n, v, g) = a w h in (x, y, tt, v, g);
  }

  pub update_model_runs-IsApart :
      (us : List ModelUpdate) (s : Cluster)
      → IsWellFormed s
      → q < s.next
      → let (s', ts) = update_model_runs us s in
        (s'.models_run ≡ s.models_run)
        × (s'.pending_model_runs ≡ s.pending_model_runs)
        × NoneAdds q (some_tasks ts)
  update_model_runs-IsApart us s w h =
      let (x, y, n, v, g) = update_model_runs-holds IsApartLoop IsApartLoop-rule us s w h in
      (x, y, n)

  pub finish_init_event-NoneAdds :
      (us : List ModelUpdate) (s : Cluster) → NoneAdds q (some_tasks (finish_init_event us s))
  finish_init_event-NoneAdds us s =
      finish_init_event-All (λ t. adds t q ≡ false) us s (λ k r e. refl)
