-- ===== src/Cluster/Loop.antt =====
-- The loop over the updates of an event in model_cluster.py keeps the dictionaries indexed.
use model_runner_client.Base.{◌≤◌, ◌<◌, ◌≡◌, refl, some, List, [], ◌∷◌, arith, All, All-append}
use model_runner_client.Base.Eq.{nat_equality, string_equality, option_equality}
use model_runner_client.Concurrent.{Ref}
use model_runner_client.Cluster.{Cluster, Task}
use model_runner_client.Cluster.Frame.{Extends, Extends-refl, Extends-trans, store-Extends}
use model_runner_client.Cluster.WellFormed.{IsWellFormed, TaskIn, TaskIn-mono, IsWellFormed-store}
use model_runner_client.Cluster.Turns.{model_factory-IsNew}
use model_runner_client.Cluster.Updates.{
  ModelUpdate, get_model_id, get_model_name, match_model, update_infos, update_model_runs,
}
use model_runner_client.Cluster.Rule.{IsLoopRule, update_model_runs-holds}
use model_runner_client.Cluster.World.{some_tasks}

match_model-lt :
    (u : ModelUpdate) (s : Cluster) (r : Ref)
    → IsWellFormed s
    → match_model u s ≡ some r
    → r < s.next
unfolding match_model
match_model-lt u s r w e = let k = get_model_id u in ground (arith, w.running k r, w.pending k r)

pub All-TaskIn-mono :
    (s s' : Cluster) (ts : List Task) → s.next ≤ s'.next → All (TaskIn s) ts → All (TaskIn s') ts
All-TaskIn-mono s s' [] h a = tt
All-TaskIn-mono s s' (t ∷ ts) h a = (TaskIn-mono s s' t h a.0, All-TaskIn-mono s s' ts h a.1)

-- The states of the loop stay within the objects, and so do the coroutines that it has collected.
abbrev pub IsGoodLoop : Cluster → Cluster → List Task → Type 0
IsGoodLoop s s' ts = IsWellFormed s → Extends s s' × IsWellFormed s' × All (TaskIn s') ts

IsGoodLoop-rule : IsLoopRule IsGoodLoop
IsGoodLoop-rule = record {
  stays = λ s w. (Extends-refl s, w, tt);
  removes = λ u s r e w. (Extends-refl s, w, (match_model-lt u s r w e, tt));
  updates = λ u s r w.
      let m = record (s.heap r) { infos = u.infos; model_name = get_model_name u } in
      unfold update_infos in (store-Extends r m s refl, IsWellFormed-store r m s refl w, tt);
  creates = λ u s s' r e w.
      let (x, v, b) =
        model_factory-IsNew u.deployment_id (get_model_id u) (get_model_name u) u.ip u.port u.infos
          s (s', r) w e in
      (x, v, (b, tt));
  goes_on = λ s t u ts us a b w.
      let (e, v, x) = a w in
      let (f, v', y) = b v in
      (Extends-trans e f, v', All-append (TaskIn u) ts us (All-TaskIn-mono t u ts f.grows x) y);
  drops = λ s t ts a w. let (e, v, x) = a w in (e, v, tt);
}

pub update_model_runs-IsGood :
    (us : List ModelUpdate) (s : Cluster)
    → IsWellFormed s
    → let (s', ts) = update_model_runs us s in
      Extends s s' × IsWellFormed s' × All (TaskIn s') (some_tasks ts)
update_model_runs-IsGood us s w = update_model_runs-holds IsGoodLoop IsGoodLoop-rule us s w
