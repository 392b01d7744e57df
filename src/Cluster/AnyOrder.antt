-- ===== src/Cluster/AnyOrder.antt =====
-- The removals that `handle_init_event` of model_cluster.py starts, in any order of their turns.
use model_runner_client.Base.{
  ℕ, zero, suc, ◌≡◌, refl, sym, ap, ◌∙◌, subst, true, false, Option, none, some, List, [], ◌∷◌,
  if◌then◌else◌, arith, Bool-cases, inl, inr, get_elem?, set, All,
}
use model_runner_client.Base.Eq.{◌==◌, nat_equality, string_equality, option_equality}
use model_runner_client.Dict
use model_runner_client.Dict.{Dict}
use model_runner_client.Runner.{Key, close}
use model_runner_client.Concurrent.{Ref}
use model_runner_client.Cluster.{
  Cluster, Task, remove_scheduled, closing, finished, stop, then_add, store, drop_entry,
  start_remove, remove_entries,
}
use model_runner_client.Cluster.Coroutines.{Answer, go, init_reply, sent, resume, after_remove}
use model_runner_client.Cluster.Frame.{key_beq_iff}
use model_runner_client.Cluster.Updates.{contains}
use model_runner_client.Cluster.World.{World, Event, turn, socket, counts}
use model_runner_client.Cluster.InitEvent.{Shrinks}
use model_runner_client.Cluster.Removed.{get-drop_entry}

-- A place of a list after an assignment: what holds of the old values holds of the new ones.
pub moved {ℓ κ μ} :
    {A : Type ℓ} (P : Option A → Type κ) (Q : Option A → Type μ) (xs : List A) (i j : ℕ) (x x' : A)
    → get_elem? xs i ≡ some x
    → ((o : Option A) → P o → Q o)
    → (P (some x) → Q (some x'))
    → P (get_elem? xs j)
    → Q (get_elem? (set xs i x') j)
moved P Q [] i j x x' e f g p = f none p
moved P Q (y ∷ xs) zero zero x x' e f g p = g (subst P e p)
moved P Q (y ∷ xs) zero (suc j) x x' e f g p = f (get_elem? xs j) p
moved P Q (y ∷ xs) (suc i) zero x x' e f g p = f (some y) p
moved P Q (y ∷ xs) (suc i) (suc j) x x' e f g p = moved P Q xs i j x x' e f g p

true_ne : true ≡ false → ⊥
true_ne e = cc

-- The events beside which the removals go on: their turns, changes of the connection, and counters that
-- calls write.
abbrev pub IsBeside : Event → Type 0
IsBeside (turn i a) = Unit
IsBeside (socket c) = Unit
IsBeside (counts r failures timeouts cooldown) = Unit
IsBeside e = ⊥

module _ (ids : List Key) (d : Dict Key Ref) where
  -- The runner of an entry that the event does not name.
  abbrev pub IsMissing : Ref → Type 0
  IsMissing q = (k : Key) × (Dict.get k d ≡ some q) × (contains k ids ≡ false)

  abbrev pub IsRemoval : Task → Type 0
  IsRemoval (remove_scheduled q) = IsMissing q
  IsRemoval (closing q stop) = IsMissing q
  IsRemoval finished = Unit
  IsRemoval t = ⊥

  -- How far the removal of the runner `r` under the key `k` has come.
  abbrev pub HasStage : Dict Key Ref → Key → Ref → Option Task → Type 0
  HasStage m k r (some (remove_scheduled q)) = q ≡ r
  HasStage m k r (some (closing q stop)) = q ≡ r
  HasStage m k r (some finished) = Dict.get k m ≡ none
  HasStage m k r o = ⊥

  pub record Removes (w : World) : Type 0 where
    pub shrinks : Shrinks ids d w.cluster
    pub kept : (k : Key) → contains k ids ≡ true → Dict.get k w.cluster.models_run ≡ Dict.get k d
    pub removals : All IsRemoval w.tasks
    pub covers :
        (k : Key) (r : Ref)
        → Dict.get k d ≡ some r
        → contains k ids ≡ false
        → (i : ℕ) × HasStage w.cluster.models_run k r (get_elem? w.tasks i)

  pub Shrinks-heap :
      (s s' : Cluster)
      → s'.models_run ≡ s.models_run
      → ((q : Ref) → (s'.heap q).model_id ≡ (s.heap q).model_id)
      → Shrinks ids d s
      → Shrinks ids d s'
  Shrinks-heap s s' e same h = record {
    same_ids = λ k r g. same r ∙ h.same_ids k r g;
    left = λ k r g. rw e (h.left k r g);
    no_more = λ k g. rw e (h.no_more k g);
  }

  pub HasStage-mono :
      (m m' : Dict Key Ref) (k : Key) (r : Ref) (o : Option Task)
      → (Dict.get k m ≡ none → Dict.get k m' ≡ none)
      → HasStage m k r o
      → HasStage m' k r o
  HasStage-mono m m' k r (some finished) h p = h p
  HasStage-mono m m' k r (some (remove_scheduled q)) h p = p
  HasStage-mono m m' k r (some (closing q stop)) h p = p
  HasStage-mono m m' k r _ h p = absurd p

  -- A turn of a removal: what it may change.
  pub record Advances (s s' : Cluster) (t t' : Task) : Type 0 where
    pub still : Shrinks ids d s'
    pub named :
        (k : Key) → contains k ids ≡ true → Dict.get k s'.models_run ≡ Dict.get k s.models_run
    pub removal : IsRemoval t'
    pub gone : (k : Key) → Dict.get k s.models_run ≡ none → Dict.get k s'.models_run ≡ none
    pub onward :
        (k : Key) (r : Ref)
        → Dict.get k d ≡ some r
        → HasStage s.models_run k r (some t)
        → HasStage s'.models_run k r (some t')

  -- A turn that leaves `models_run`, and the task at its stage.
  start-Advances :
      (q : Ref) (s : Cluster)
      → IsMissing q
      → Shrinks ids d s
      → Advances s (store q (close (s.heap q)) s) (remove_scheduled q) (closing q stop)
  unfolding store
  start-Advances q s m h = record {
    still = Shrinks-heap s _ refl (λ r. unfold close in ground arith) h;
    named = λ k c. refl;
    removal = m;
    gone = λ k e. e;
    onward = λ k r e p. p;
  }

  same_key :
      (s : Cluster) (k j : Key) (q r : Ref)
      → Shrinks ids d s
      → Dict.get j d ≡ some q
      → Dict.get k d ≡ some r
      → q ≡ r
      → k ≡ j
  same_key s k j q r h e f p =
      sym (h.same_ids k r f) ∙ ap (λ x. (s.heap x).model_id) (sym p) ∙ h.same_ids j q e

  finish-Advances :
      (q : Ref) (s : Cluster)
      → IsMissing q
      → Shrinks ids d s
      → Advances s (remove_entries q s) (closing q stop) finished
  unfolding remove_entries
  finish-Advances q s (j, e, c) h =
      let id = h.same_ids j q e in
      let get : (k : Key)
          → Dict.get k (drop_entry (s.heap q).model_id q s.models_run)
            ≡ (if k == j then none else Dict.get k s.models_run) =
        λ k.
          ap (λ x. Dict.get k (drop_entry x q s.models_run)) id
          ∙ get-drop_entry k j q s.models_run (h.left j q e) in
      record {
        still = record {
          same_ids = h.same_ids;
          left = λ k r f. ground (arith, get k, h.left k r f);
          no_more = λ k f. ground (arith, get k, h.no_more k f);
        };
        named = λ k f. elim (Bool-cases (k == j)) [
          | inl g ↦ absurd (true_ne (sym f ∙ ap (λ x. contains x ids) ((key_beq_iff k j).0 g) ∙ c))
          | inr g ↦ get k ∙ ap (λ b. if b then none else Dict.get k s.models_run) g
        ];
        removal = tt;
        gone = λ k f. ground (arith, get k);
        onward = λ k r f p.
            get k
            ∙ ap (λ b. if b then none else Dict.get k s.models_run)
                ((key_beq_iff k j).1 (same_key s k j q r h e f p));
      }

  stay-Advances : (t : Task) (s : Cluster) → IsRemoval t → Shrinks ids d s → Advances s s t t
  stay-Advances t s m h = record {
    still = h;
    named = λ k c. refl;
    removal = m;
    gone = λ k e. e;
    onward = λ k r e p. p;
  }

  pub resume-Advances :
      (t : Task) (a : Answer) (s : Cluster)
      → IsRemoval t
      → Shrinks ids d s
      → Advances s (resume t a s).0 t (resume t a s).1
  unfolding resume start_remove after_remove
  resume-Advances (remove_scheduled q) (go o) s m h = start-Advances q s m h
  resume-Advances (remove_scheduled q) (init_reply x) s m h =
      stay-Advances (remove_scheduled q) s m h
  resume-Advances (remove_scheduled q) (sent x) s m h = stay-Advances (remove_scheduled q) s m h
  resume-Advances (closing q stop) (go o) s m h = finish-Advances q s m h
  resume-Advances (closing q stop) (init_reply x) s m h = stay-Advances (closing q stop) s m h
  resume-Advances (closing q stop) (sent x) s m h = stay-Advances (closing q stop) s m h
  resume-Advances finished a s m h = stay-Advances finished s m h
  resume-Advances (closing q (then_add r c)) a s m h = absurd m
  resume-Advances _ a s m h = absurd m
