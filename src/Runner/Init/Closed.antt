-- ===== src/Runner/Init/Closed.antt =====
-- What `ModelRunner.init` does on a runner that `close` was called on.
use model_runner_client.Base.{ℕ, ◌≡◌, true, false, none, some, arith, is_some}
use model_runner_client.Runner.{ModelRunner, aborted, PeerTlsRsaKey, close}
use model_runner_client.Runner.Init.{
  probing, main_ready, health_ready, setting_up, Opens, both_open, probed, ready, set_up, waiting,
  returned, init_start, init_resume,
}

-- A closed runner aborts before it connects.
init_closed :
    (r : ModelRunner) (opens : Opens)
    → r.closed ≡ true
    → init_start r opens ≡ (r, returned false (some aborted))
unfolding init_start
init_closed r opens h = simp h

-- For a runner with secure credentials and infos, `close` during a TLS probe is not noticed: if the
-- connection and the setup then go well, `init` returns success for a closed runner that holds two new
-- channels.
init_ignores_close :
    (r : ModelRunner) (a : ℕ) (peer : PeerTlsRsaKey)
    → is_some r.secure_credentials ≡ true
    → is_some r.infos ≡ true
    → let (r1, s1) = init_resume (close r) (probing a) (probed peer both_open) in
      let (r2, s2) = init_resume r1 (main_ready a) ready in
      let (r3, s3) = init_resume r2 (health_ready a) ready in
      let (r4, s4) = init_resume r3 (setting_up a) (set_up true none) in
      (s1 ≡ waiting (main_ready a))
      × (s2 ≡ waiting (health_ready a))
      × (s3 ≡ waiting (setting_up a))
      × (s4 ≡ returned true none)
      × (r4.closed ≡ true)
      × (is_some r4.grpc_channel ≡ true)
      × (is_some r4.grpc_health_channel ≡ true)
unfolding init_resume close
init_ignores_close r a peer h i = ground arith
