-- ===== src/Runner/Init/Outcome.antt =====
-- When `ModelRunner.init` gives up after its attempts.
use model_runner_client.Base.{
  ℕ, zero, suc, ◌+◌, ◌≡◌, refl, sym, ap, subst, ◌∙◌, Bool, true, false, some, arith, ◌⊎◌, inl, inr,
  is_some,
}
use model_runner_client.Runner.{ModelRunner, grpc_connection_failed, usage_error}
use model_runner_client.Runner.Init.{
  InitPoint, probing, main_ready, health_ready, setting_up, checking_tls, backing_off, Opens, Reply,
  InitState, waiting, returned, raises, init_start, init_resume, init_loop,
}
use model_runner_client.Runner.Init.Bounded.{IsEnded, init_ends, attempt_of}
use model_runner_client.Runner.Init.Frame.{init_start-SameRunner, init_resume-SameRunner}
use model_runner_client.Runner.Init.Transient.{
  OpensOrFails, IsFailing, IsFailing-fits, next_attempt,
}
use model_runner_client.Runner.Init.Failing.{
  MustRaise, IsOnCourse, IsOpen, begin_attempt-IsOnCourse, init_resume-IsOnCourse,
}

-- 1 for the await that is a sleep between two attempts.
abbrev pub slept : InitPoint → ℕ
slept (backing_off a) = 1
slept p = 0

-- How often `init` sleeps before another attempt.
abbrev pub sleeps : (ℕ → InitPoint → Reply) → ℕ → ModelRunner × InitState → ℕ
sleeps answer zero s = 0
sleeps answer (suc n) (r, waiting p) = slept p + sleeps answer n (init_resume r p (answer n p))
sleeps answer (suc n) (r, returned b e) = 0
sleeps answer (suc n) (r, raises e) = 0

module _ (sec tls conn : Bool) where
  attempt-waiting :
      (a : ℕ) (p : InitPoint) → IsOnCourse sec tls conn a (waiting p) → attempt_of p ≡ a
  attempt-waiting a (probing b) h = h.0
  attempt-waiting a (main_ready b) h = h.0
  attempt-waiting a (health_ready b) h = h.0
  attempt-waiting a (setting_up b) h = h.0
  attempt-waiting a (checking_tls b) h = h.0
  attempt-waiting a (backing_off b) h = h.0

  next_attempt-slept : (p : InitPoint) (a k : ℕ) → next_attempt p a + k ≡ a + (slept p + k)
  next_attempt-slept (probing b) a k = omega arith
  next_attempt-slept (main_ready b) a k = omega arith
  next_attempt-slept (health_ready b) a k = omega arith
  next_attempt-slept (setting_up b) a k = omega arith
  next_attempt-slept (checking_tls b) a k = omega arith
  next_attempt-slept (backing_off b) a k = omega arith

  init_resume-IsOpen :
      (r : ModelRunner) (p : InitPoint) (x : Reply)
      → IsOpen sec tls conn r
      → IsOpen sec tls conn (init_resume r p x).0
  init_resume-IsOpen r p x (c, s) =
      let same = init_resume-SameRunner r p x in (same.closed ∙ c, ap is_some same.secure ∙ s)

  init_loop-IsOnCourse :
      (answer : ℕ → InitPoint → Reply)
      → ((n : ℕ) (p : InitPoint) → IsFailing tls conn p (answer n p))
      → (n a : ℕ) (r : ModelRunner) (st : InitState) → IsOpen sec tls conn r
      → IsOnCourse sec tls conn a st
      → IsOnCourse sec tls conn (a + sleeps answer n (r, st)) (init_loop answer n (r, st)).1
  unfolding init_loop
  init_loop-IsOnCourse answer f zero a r st o h =
      subst (λ k. IsOnCourse sec tls conn k st) (omega arith) h
  init_loop-IsOnCourse answer f (suc n) a r (waiting p) o h =
      let x = answer n p in
      let same = attempt-waiting a p h in
      let s = init_resume r p x in
      let next =
        init_resume-IsOnCourse sec tls conn r p x o (f n p)
          (subst (λ k. IsOnCourse sec tls conn k (waiting p)) (sym same) h) in
      let end =
        init_loop-IsOnCourse answer f n (next_attempt p (attempt_of p)) s.0 s.1
          (init_resume-IsOpen r p x o) next in
      subst (λ k. IsOnCourse sec tls conn k (init_loop answer n s).1)
        (next_attempt-slept p (attempt_of p) (sleeps answer n s)
          ∙ ap (λ k. k + (slept p + sleeps answer n s)) same)
        end
  init_loop-IsOnCourse answer f (suc n) a r (returned b e) o h =
      subst (λ k. IsOnCourse sec tls conn k (returned b e)) (omega arith) h
  init_loop-IsOnCourse answer f (suc n) a r (raises e) o h = h

  -- What the end of `init` may be, after `k` sleeps.
  abbrev pub IsFinalFailure : ℕ → InitState → Type 0
  IsFinalFailure k st =
      ((st ≡ returned false (some grpc_connection_failed)) × (k ≡ 4) × (MustRaise sec tls conn → ⊥))
      ⊎ ((st ≡ raises usage_error) × (sec ≡ false) × (tls ≡ true))

  ended-IsFinalFailure :
      (k : ℕ) (st : InitState)
      → IsEnded st
      → IsOnCourse sec tls conn (1 + k) st
      → IsFinalFailure k st
  ended-IsFinalFailure k (waiting p) i h = absurd i
  ended-IsFinalFailure k (returned b e) i (five, f, g, n) =
      inl (rw (f, g) refl, omega (arith, five), n)
  ended-IsFinalFailure k (raises e) i (f, s, t) = inr (ap raises f, s, t)

pub init_gives_up :
    (answer : ℕ → InitPoint → Reply) (r : ModelRunner) (opens : Opens) (tls conn : Bool)
    → r.closed ≡ false
    → OpensOrFails conn opens
    → ((n : ℕ) (p : InitPoint) → IsFailing tls conn p (answer n p))
    → IsFinalFailure
        (is_some r.secure_credentials)
        tls
        conn
        (sleeps answer 30 (init_start r opens))
        (init_loop answer 30 (init_start r opens)).1
unfolding init_start
init_gives_up answer r opens tls conn c o f =
    let sec = is_some r.secure_credentials in
    let (q, st) = init_start r opens in
    let same = init_start-SameRunner r opens in
    let open_still : IsOpen sec tls conn q = (same.closed ∙ c, ap is_some same.secure) in
    let start : IsOnCourse sec tls conn 1 st =
      begin_attempt-IsOnCourse sec tls conn r 1 opens (omega arith) (c, refl) o in
    ended-IsFinalFailure sec tls conn (sleeps answer 30 (q, st)) (init_loop answer 30 (q, st)).1
      (init_ends answer r opens (λ n p. IsFailing-fits tls conn p (answer n p) (f n p)))
      (init_loop-IsOnCourse sec tls conn answer f 30 1 q st open_still start)
