-- ===== src/Runner/Init/Failing.antt =====
-- The attempts of `ModelRunner.init` in an environment in which each of them fails.
use model_runner_client.Base.{
  ℕ, suc, ◌≤◌, ◌<◌, ◌≡◌, refl, sym, ◌∙◌, Bool, true, false, Option, none, some, arith, ltb,
  Bool-cases, inl, inr, is_some,
}
use model_runner_client.Credentials.{SecureCredentials, GatewayCredentials}
use model_runner_client.Runner.{
  ModelRunner, grpc_connection_failed, Exception, rpc_error, timeout_error, usage_error,
  value_error, other_error, retry_attempts, Infos, PeerTlsRsaKey, Channel,
}
use model_runner_client.Runner.Init.{
  InitPoint, probing, main_ready, health_ready, setting_up, checking_tls, backing_off, Opens,
  both_open, main_fails, health_fails, Reply, probed, ready, tls_answer, woke, raised, InitState,
  waiting, returned, raises, retry, except, open_channels, connect, begin_attempt, after_probe,
  init_resume, is_secure, gateway_channels, insecure_channels, secure_channels,
}
use model_runner_client.Runner.Init.Bounded.{attempt_of}
use model_runner_client.Runner.Init.Transient.{Fails, OpensOrFails, IsFailing, next_attempt}

true_not_false : true ≡ false → ⊥
true_not_false e = cc

false_not_true : false ≡ true → ⊥
false_not_true e = cc

-- `sec` says whether the runner has secure credentials.
module _ (sec tls conn : Bool) where
  -- `init` has to end with the usage error.
  abbrev pub MustRaise : Type 0
  MustRaise = (sec ≡ false) × (tls ≡ true) × (conn ≡ true)

  -- A state in attempt `a`.
  abbrev pub IsOnCourse : ℕ → InitState → Type 0
  IsOnCourse a (waiting (probing b)) = (b ≡ a) × (a ≤ retry_attempts) × (sec ≡ true)
  IsOnCourse a (waiting (checking_tls b)) = (b ≡ a) × (a ≤ retry_attempts) × (sec ≡ false)
  IsOnCourse a (waiting (backing_off b)) = (b ≡ a) × (a < retry_attempts)
  IsOnCourse a (waiting p) = (attempt_of p ≡ a) × (a ≤ retry_attempts)
  IsOnCourse a (returned b e) =
      (a ≡ retry_attempts) × (b ≡ false) × (e ≡ some grpc_connection_failed) × (MustRaise → ⊥)
  IsOnCourse a (raises e) = (e ≡ usage_error) × (sec ≡ false) × (tls ≡ true)

  -- What `init` does not change of the runner.
  abbrev pub IsOpen : ModelRunner → Type 0
  IsOpen r = (r.closed ≡ false) × (is_secure r ≡ sec)

  secure_need_not : sec ≡ true → MustRaise → ⊥
  secure_need_not s (n, t, c) = absurd (true_not_false (sym s ∙ n))

  retry-IsOnCourse :
      (r : ModelRunner) (a : ℕ) → a ≤ retry_attempts → (MustRaise → ⊥) → IsOnCourse a (retry r a).1
  unfolding retry
  retry-IsOnCourse r a l n = elim (Bool-cases (ltb a retry_attempts)) [
    | inl e ↦ rw e (refl, ground (arith, e))
    | inr e ↦ rw e (ground (arith, e), refl, refl, n)
  ]

  -- A `ValueError` or another exception.
  again-IsOnCourse :
      (r : ModelRunner) (a : ℕ)
      → a ≤ retry_attempts
      → IsOpen r
      → (MustRaise → ⊥)
      → IsOnCourse a (except r a value_error).1 × IsOnCourse a (except r a other_error).1
  unfolding except
  again-IsOnCourse r a l (c, s) n = simp c (retry-IsOnCourse r a l n, retry-IsOnCourse r a l n)

  lost-IsOnCourse :
      (r : ModelRunner) (a : ℕ)
      → a ≤ retry_attempts
      → IsOpen r
      → IsOnCourse a (except r a rpc_error).1 × IsOnCourse a (except r a timeout_error).1
  unfolding except
  lost-IsOnCourse r a l (c, s) = elim (Bool-cases (is_secure r)) [
    | inl e ↦ let t = retry-IsOnCourse r a l (secure_need_not (sym s ∙ e)) in rw e (t, t)
    | inr e ↦ rw e ((refl, l, sym s ∙ e), (refl, l, sym s ∙ e))
  ]

  except-IsOnCourse :
      (r : ModelRunner) (a : ℕ) (e : Exception)
      → a ≤ retry_attempts
      → IsOpen r
      → Fails conn e
      → IsOnCourse a (except r a e).1
  except-IsOnCourse r a rpc_error l o f = (lost-IsOnCourse r a l o).0
  except-IsOnCourse r a timeout_error l o f = (lost-IsOnCourse r a l o).1
  except-IsOnCourse r a value_error l o f =
      (again-IsOnCourse r a l o (λ (s, t, c). false_not_true (f.1 c))).0
  except-IsOnCourse r a other_error l o f =
      (again-IsOnCourse r a l o (λ (s, t, c). false_not_true (f.1 c))).1
  except-IsOnCourse r a _ l o f = absurd f.0

  open_channels-IsOnCourse :
      (r : ModelRunner) (a : ℕ) (c : Channel × Channel) (x : Opens)
      → a ≤ retry_attempts
      → IsOpen r
      → OpensOrFails conn x
      → IsOnCourse a (open_channels r a c x).1
  unfolding open_channels
  open_channels-IsOnCourse r a (m, h) both_open l o f = (refl, l)
  open_channels-IsOnCourse r a (m, h) (main_fails e) l o f = except-IsOnCourse r a e l o f
  open_channels-IsOnCourse r a (m, h) (health_fails e) l o f =
      except-IsOnCourse (record r { grpc_channel = some m }) a e l o f

  connect-IsOnCourse :
      (c : Option SecureCredentials) (g : Option GatewayCredentials) (r : ModelRunner) (a : ℕ)
      (x : Opens)
      → is_some c ≡ sec
      → a ≤ retry_attempts
      → IsOpen r
      → OpensOrFails conn x
      → IsOnCourse a (connect c g r a x).1
  unfolding connect
  connect-IsOnCourse (some c) g r a x s l o f = (refl, l, sym s)
  connect-IsOnCourse none (some g) r a x s l o f =
      open_channels-IsOnCourse r a (gateway_channels g r) x l o f
  connect-IsOnCourse none none r a x s l o f =
      open_channels-IsOnCourse r a (insecure_channels r) x l o f

  pub begin_attempt-IsOnCourse :
      (r : ModelRunner) (a : ℕ) (x : Opens)
      → a ≤ retry_attempts
      → IsOpen r
      → OpensOrFails conn x
      → IsOnCourse a (begin_attempt r a x).1
  unfolding begin_attempt
  begin_attempt-IsOnCourse r a x l (c, s) f =
      simp c (connect-IsOnCourse r.secure_credentials r.gateway_credentials r a x s l (c, s) f)

  after_probe-IsOnCourse :
      (c : Option SecureCredentials) (infos : Option Infos) (r : ModelRunner) (a : ℕ)
      (peer : PeerTlsRsaKey) (x : Opens)
      → a ≤ retry_attempts
      → IsOpen r
      → sec ≡ true
      → OpensOrFails conn x
      → IsOnCourse a (after_probe c infos r a peer x).1
  unfolding after_probe
  after_probe-IsOnCourse none infos r a peer x l o s f =
      (again-IsOnCourse r a l o (secure_need_not s)).1
  after_probe-IsOnCourse (some c) none r a peer x l o s f =
      (again-IsOnCourse r a l o (secure_need_not s)).1
  after_probe-IsOnCourse (some c) (some infos) r a peer x l o s f =
      open_channels-IsOnCourse r a (secure_channels c peer r) x l o f

  tls_answer-IsOnCourse :
      (r : ModelRunner) (a : ℕ) (b : Bool)
      → b ≡ tls
      → a ≤ retry_attempts
      → sec ≡ false
      → IsOnCourse a (init_resume r (checking_tls a) (tls_answer b)).1
  unfolding init_resume
  tls_answer-IsOnCourse r a true e l s = (refl, s, sym e)
  tls_answer-IsOnCourse r a false e l s =
      retry-IsOnCourse r a l (λ (n, t, c). true_not_false (sym t ∙ sym e))

  pub init_resume-IsOnCourse :
      (r : ModelRunner) (p : InitPoint) (x : Reply)
      → IsOpen r
      → IsFailing tls conn p x
      → IsOnCourse (attempt_of p) (waiting p)
      → IsOnCourse (next_attempt p (attempt_of p)) (init_resume r p x).1
  unfolding init_resume
  init_resume-IsOnCourse r (probing a) (probed peer x) o f (e, l, s) =
      after_probe-IsOnCourse r.secure_credentials r.infos r a peer x l o s f
  init_resume-IsOnCourse r (probing a) (raised e) o f (_, l, s) = except-IsOnCourse r a e l o f
  init_resume-IsOnCourse r (main_ready a) ready o f (e, l) = (refl, l)
  init_resume-IsOnCourse r (main_ready a) (raised e) o f (_, l) = except-IsOnCourse r a e l o f
  init_resume-IsOnCourse r (health_ready a) ready o f (e, l) = (refl, l)
  init_resume-IsOnCourse r (health_ready a) (raised e) o f (_, l) = except-IsOnCourse r a e l o f
  init_resume-IsOnCourse r (setting_up a) (raised e) o f (_, l) = except-IsOnCourse r a e l o f
  init_resume-IsOnCourse r (checking_tls a) (tls_answer b) o f (e, l, s) =
      tls_answer-IsOnCourse r a b f l s
  init_resume-IsOnCourse r (backing_off a) (woke x) o f (e, l) =
      begin_attempt-IsOnCourse r (suc a) x (omega arith) o f
  init_resume-IsOnCourse r _ _ o f h = absurd f
