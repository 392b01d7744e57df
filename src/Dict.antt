-- ===== src/Dict.antt =====
-- Python's `dict` in insertion order, as the program's `models_run`, `pending_model_runs` and `infos`
-- use it: `d.get(k)`, `d[k] = v`, `del d[k]`, `k in d`, and iteration over keys and values.
use model_runner_client.Base.{
  ◌≡◌, refl, Bool, Option, none, some, List, [], ◌∷◌, map, arith, if◌then◌else◌, is_some,
}
use model_runner_client.Base.Eq.{Equality, ◌==◌}

abbrev pub Dict {ℓ κ} : Type ℓ → Type κ → Type (ℓ ⊔ κ)
Dict K V = List (K × V)

abbrev pub keys {ℓ κ} : {K : Type ℓ} {V : Type κ} → Dict K V → List K
keys = map (λ (k, _). k)

abbrev pub values {ℓ κ} : {K : Type ℓ} {V : Type κ} → Dict K V → List V
values = map (λ (_, v). v)

module _ {ℓ κ} {K : Type ℓ} {V : Type κ} ⦃e : Equality K⦄ where
  -- d.get(k)
  unfoldable pub get : K → Dict K V → Option V
  get k [] = none
  get k ((j, v) ∷ d) = if k == j then some v else get k d

  -- d[k] = v: an old key keeps its place
  unfoldable pub put : K → V → Dict K V → Dict K V
  put k v [] = (k, v) ∷ []
  put k v ((j, w) ∷ d) = if k == j then (j, v) ∷ d else (j, w) ∷ put k v d

  -- del d[k]
  unfoldable pub delete : K → Dict K V → Dict K V
  delete k [] = []
  delete k ((j, w) ∷ d) = let rest = delete k d in if k == j then rest else (j, w) ∷ rest

  -- k in d
  abbrev pub has : K → Dict K V → Bool
  has k d = is_some (get k d)

  pub get-put :
      (j k : K) (v : V) (d : Dict K V) → get j (put k v d) ≡ (if j == k then some v else get j d)
  unfolding get put
  get-put j k v [] = refl
  get-put j k v ((i, w) ∷ d) =
      ground (arith, get-put j k v d, e.test_iff j k, e.test_iff k i, e.test_iff j i)

  pub get-delete :
      (j k : K) (d : Dict K V) → get j (delete k d) ≡ (if j == k then none else get j d)
  unfolding get delete
  get-delete j k [] = ground arith
  get-delete j k ((i, w) ∷ d) =
      ground (arith, get-delete j k d, e.test_iff j k, e.test_iff k i, e.test_iff j i)

  pub get-nil : (k : K) → get k [] ≡ none
  unfolding get
  get-nil k = refl

pub ruleset dict_laws = (get-put, get-delete, get-nil)
