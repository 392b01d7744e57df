-- ===== src/Cluster/Frame.antt =====
-- What the functions of model_cluster.py leave alone: objects are only added, and none changes its
-- model id. Lemmas on the dictionaries whose entries stand under the id of their runner.
use native.Mathlib.Nat.{le_trans}
use model_runner_client.Base.{◌≤◌, ◌<◌, ◌≡◌, ◌≢◌, refl, ◌∙◌, true, some, arith, ◌↔◌}
use model_runner_client.Base.Eq.{
  ◌==◌, nat_equality, string_equality, option_equality, option_beq_iff,
}
use model_runner_client.Dict
use model_runner_client.Dict.{Dict, get-put, get-delete}
use model_runner_client.Runner.{ModelRunner, Key}
use model_runner_client.Concurrent.{Ref}
use model_runner_client.Cluster.{Cluster, store, allocate, drop_entry}
use model_runner_client.Base.{◌≢◌, arith}
use model_runner_client.Base.Eq.{option_beq_iff, option_equality, nat_equality, string_equality}
use model_runner_client.Dict.{get-delete}
use model_runner_client.Cluster.{store, drop_entry}

pub key_beq_iff : (a b : Key) → ((a == b) ≡ true) ↔ (a ≡ b)
key_beq_iff a b = option_beq_iff string_equality a b

-- Objects that exist in `s` exist in `s'`, under the same model id.
pub record Extends (s s' : Cluster) : Type 0 where
  pub grows : s.next ≤ s'.next
  pub same_id : (r : Ref) → r < s.next → (s'.heap r).model_id ≡ (s.heap r).model_id

pub Extends-refl : (s : Cluster) → Extends s s
Extends-refl s = record { grows = omega arith; same_id = λ r h. refl }

pub Extends-trans : {s t u : Cluster} → Extends s t → Extends t u → Extends s u
Extends-trans a b = record {
  grows = le_trans a.grows b.grows;
  same_id = λ r h. b.same_id r (le_trans h a.grows) ∙ a.same_id r h;
}

-- Every entry is an existing runner, under its own model id.
abbrev pub IsIndexed : Cluster → Dict Key Ref → Type 0
IsIndexed s d =
    (k : Key) (r : Ref) → Dict.get k d ≡ some r → (r < s.next) × ((s.heap r).model_id ≡ k)

pub IsIndexed-Extends :
    (s s' : Cluster) (d : Dict Key Ref) → Extends s s' → IsIndexed s d → IsIndexed s' d
IsIndexed-Extends s s' d e h =
    λ k r g. let (b, i) = h k r g in (le_trans b e.grows, e.same_id r b ∙ i)

pub IsIndexed-put :
    (s : Cluster) (d : Dict Key Ref) (r : Ref)
    → r < s.next
    → IsIndexed s d
    → IsIndexed s (Dict.put (s.heap r).model_id r d)
IsIndexed-put s d r b h = λ k q g.
    ground (arith, get-put k (s.heap r).model_id r d, key_beq_iff k (s.heap r).model_id, h k q)

pub IsIndexed-drop_entry :
    (s : Cluster) (d : Dict Key Ref) (k : Key) (r : Ref)
    → IsIndexed s d
    → IsIndexed s (drop_entry k r d)
unfolding drop_entry
IsIndexed-drop_entry s d k r h = λ j q g. ground (arith, get-delete j k d, h j q)

-- After the deletion no entry is left that holds the runner.
pub drop_entry-gone :
    (s : Cluster) (d : Dict Key Ref) (r : Ref) (k : Key) (q : Ref)
    → IsIndexed s d
    → Dict.get k (drop_entry (s.heap r).model_id r d) ≡ some q
    → (Dict.get k d ≡ some q) × (q ≢ r)
unfolding drop_entry
drop_entry-gone s d r k q h g =
    let i = (s.heap r).model_id in ground (arith, get-delete k i d, key_beq_iff k i, h k q)

pub store-Extends :
    (r : Ref) (m : ModelRunner) (s : Cluster)
    → m.model_id ≡ (s.heap r).model_id
    → Extends s (store r m s)
unfolding store
store-Extends r m s e = record { grows = omega arith; same_id = λ q h. ground arith }

pub allocate-Extends : (m : ModelRunner) (s : Cluster) → Extends s (allocate m s).0
unfolding allocate
allocate-Extends m s = record { grows = omega arith; same_id = λ q h. ground arith }

pub drop_entry_self :
    (k : Key) (r : Ref) (d : Dict Key Ref) → Dict.get k (drop_entry k r d) ≢ some r
unfolding drop_entry
drop_entry_self k r d e =
    ground (
      arith,
      get-delete k k d,
      key_beq_iff k k,
      option_beq_iff nat_equality (Dict.get k d) (some r),
    )

pub store_self : (r : Ref) (m : ModelRunner) (s : Cluster) → (store r m s).heap r ≡ m
unfolding store
store_self r m s = ground arith
