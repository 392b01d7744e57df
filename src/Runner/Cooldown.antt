-- ===== src/Runner/Cooldown.antt =====
-- The cooldown of a model that times out: `should_skip_for_timeout_reason` of model_runner.py over
-- a series of calls.
use model_runner_client.Base.{
  ℕ, zero, suc, ◌-◌, ◌<◌, ◌≡◌, refl, ap, subst, sym, ◌∙◌, Bool, true, false, List, [], ◌∷◌, ◌++◌,
  arith, length,
}
use model_runner_client.Base.Int.{ℤ, pos, negsuc}
use model_runner_client.Runner.{ModelRunner, half_up, should_skip_for_timeout_reason}

-- No cooldown is under way: what every call that was let through leaves behind.
abbrev pub IsArmed : ModelRunner → Type 0
IsArmed r = r.cooldown_calls_remaining ≡ negsuc 0

-- The counter never falls below -1.
abbrev pub IsCounter : ℤ → Type 0
IsCounter (pos n) = Unit
IsCounter (negsuc zero) = Unit
IsCounter (negsuc (suc n)) = ⊥

-- The answers to a series of calls. Before each, the number of timeouts is set to any value.
unfoldable pub skips : ModelRunner → List ℕ → List Bool
skips r [] = []
skips r (t ∷ ts) =
    let (r', skip) = should_skip_for_timeout_reason (record r { consecutive_timeouts = t }) in
    skip ∷ skips r' ts

abbrev pub replicate : ℕ → Bool → List Bool
replicate zero b = []
replicate (suc n) b = b ∷ replicate n b

pub should_skip_IsCounter :
    (r : ModelRunner)
    → IsCounter r.cooldown_calls_remaining
    → IsCounter (should_skip_for_timeout_reason r).0.cooldown_calls_remaining
unfolding should_skip_for_timeout_reason
should_skip_IsCounter r h = ground arith

-- A call that is let through, with a cooldown counter of at least -1, leaves the runner with no
-- cooldown under way.
should_skip_lets_through :
    (r : ModelRunner)
    → IsCounter r.cooldown_calls_remaining
    → (should_skip_for_timeout_reason r).1 ≡ false
    → IsArmed (should_skip_for_timeout_reason r).0
unfolding should_skip_for_timeout_reason
should_skip_lets_through r h e = ground arith

-- A runner with no timeout and no cooldown is never skipped, and is not changed by the question.
pub should_skip_healthy :
    (r : ModelRunner)
    → IsArmed r
    → r.consecutive_timeouts ≡ 0
    → should_skip_for_timeout_reason r ≡ (r, false)
unfolding should_skip_for_timeout_reason
should_skip_healthy r h e = ground arith

-- One step of a cooldown that is under way.
should_skip_counting :
    (r : ModelRunner) (n : ℕ)
    → r.cooldown_calls_remaining ≡ pos (suc n)
    → should_skip_for_timeout_reason r ≡ (record r { cooldown_calls_remaining = pos n }, true)
unfolding should_skip_for_timeout_reason
should_skip_counting r n c = ground arith

-- The step that begins a cooldown.
should_skip_begins :
    (r : ModelRunner) (n : ℕ)
    → IsArmed r
    → 0 < r.consecutive_timeouts
    → half_up r.consecutive_timeouts ≡ suc n
    → should_skip_for_timeout_reason r ≡ (record r { cooldown_calls_remaining = pos n }, true)
unfolding should_skip_for_timeout_reason
should_skip_begins r n a h e = ground arith

skips_counting :
    (r : ModelRunner) (n : ℕ) (ts : List ℕ)
    → r.cooldown_calls_remaining ≡ pos n
    → length ts ≡ suc n
    → skips r ts ≡ replicate n true ++ false ∷ []
unfolding skips
skips_counting r n [] c l = absurd (omega arith)
skips_counting r zero (t ∷ []) c l = unfold should_skip_for_timeout_reason in ground arith
skips_counting r zero (t ∷ u ∷ ts) c l = absurd (omega arith)
skips_counting r (suc n) (t ∷ ts) c l =
    rw (should_skip_counting (record r { consecutive_timeouts = t }) n c)
      (ap (◌∷◌ true) (skips_counting _ n ts refl (omega arith)))

skips_begun :
    (r : ModelRunner) (t n : ℕ) (ts : List ℕ)
    → IsArmed r
    → 0 < t
    → half_up t ≡ suc n
    → length ts ≡ suc n
    → skips r (t ∷ ts) ≡ replicate (suc n) true ++ false ∷ []
unfolding skips
skips_begun r t n ts a h e l =
    rw (should_skip_begins (record r { consecutive_timeouts = t }) n a h e)
      (ap (◌∷◌ true) (skips_counting _ n ts refl l))

-- A model with `t > 0` timeouts and no cooldown under way is skipped for `ceil(t / 2)` calls, and the
-- next one is let through, whatever the number of timeouts becomes meanwhile.
pub skips_exactly :
    (r : ModelRunner) (t : ℕ) (ts : List ℕ)
    → IsArmed r
    → 0 < t
    → length ts ≡ half_up t
    → skips r (t ∷ ts) ≡ replicate (half_up t) true ++ false ∷ []
skips_exactly r t ts a h l =
    let e : half_up t ≡ suc (half_up t - 1) = omega arith in
    subst (λ k. skips r (t ∷ ts) ≡ replicate k true ++ false ∷ []) (sym e)
      (skips_begun r t (half_up t - 1) ts a h e (l ∙ e))
