-- ===== src/Tests/Runner.antt =====
-- Runs of the cooldown and of `init`.
use model_runner_client.Base.{ℕ, ◌≡◌, refl, true, false, none, some, [], ◌∷◌, arith}
use model_runner_client.Runner.{rpc_error, grpc_connection_failed}
use model_runner_client.Runner.Cooldown.{skips, skips_exactly}
use model_runner_client.Runner.Init.{
  InitPoint, Reply, probing, main_ready, health_ready, setting_up, checking_tls, backing_off,
  both_open, probed, ready, set_up, tls_answer, woke, returned, init_start, init_resume, init_loop,
}
use model_runner_client.Runner.Init.Bounded.{fits, IsEnded, init_ends}
use model_runner_client.Base.{Bool}
use model_runner_client.Runner.{Exception, timeout_error, value_error}
use model_runner_client.Runner.Init.{raised}
use model_runner_client.Runner.Init.Transient.{IsFailing}
use model_runner_client.Runner.Init.Outcome.{IsFinalFailure, init_gives_up}
use model_runner_client.Runner.Init.Channels.{IsConnected, IsFound, init_connects}
use model_runner_client.Tests.Samples.{alpha, secure_alpha, peer}

-- Five timeouts: three calls are skipped and the fourth is let through, also if more timeouts are
-- counted meanwhile.
skips_exactly_example : skips alpha (5 ∷ 6 ∷ 7 ∷ 8 ∷ []) ≡ true ∷ true ∷ true ∷ false ∷ []
skips_exactly_example = skips_exactly alpha 5 (6 ∷ 7 ∷ 8 ∷ []) refl (omega arith) refl

-- An environment in which every connection fails with `e`, and a server that does or does not speak TLS.
abbrev failing : Exception → Bool → ℕ → InitPoint → Reply
failing e tls n (checking_tls a) = tls_answer tls
failing e tls n (backing_off a) = woke both_open
failing e tls n (probing a) = raised e
failing e tls n (main_ready a) = raised e
failing e tls n (health_ready a) = raised e
failing e tls n (setting_up a) = raised e

failing-fits : (n : ℕ) (p : InitPoint) → fits p (failing rpc_error false n p) ≡ true
failing-fits n (probing a) = refl
failing-fits n (main_ready a) = refl
failing-fits n (health_ready a) = refl
failing-fits n (setting_up a) = refl
failing-fits n (checking_tls a) = refl
failing-fits n (backing_off a) = refl

init_ends_example : IsEnded (init_loop (failing rpc_error false) 30 (init_start alpha both_open)).1
init_ends_example = init_ends (failing rpc_error false) alpha both_open failing-fits

-- The probe and the main channel succeed, and the health channel is not ready in time.
abbrev unhealthy : ℕ → InitPoint → Reply
unhealthy n (probing a) = probed peer both_open
unhealthy n (main_ready a) = ready
unhealthy n (health_ready a) = raised timeout_error
unhealthy n (setting_up a) = raised value_error
unhealthy n (checking_tls a) = tls_answer false
unhealthy n (backing_off a) = woke both_open

unhealthy-IsFailing : (n : ℕ) (p : InitPoint) → IsFailing false false p (unhealthy n p)
unhealthy-IsFailing n (probing a) = tt
unhealthy-IsFailing n (main_ready a) = tt
unhealthy-IsFailing n (health_ready a) = (tt, λ e. refl)
unhealthy-IsFailing n (setting_up a) = (tt, λ e. e)
unhealthy-IsFailing n (checking_tls a) = refl
unhealthy-IsFailing n (backing_off a) = tt

init_gives_up_example :
    IsFinalFailure true false false 4 (returned false (some grpc_connection_failed))
unfolding init_loop init_start init_resume
init_gives_up_example =
    init_gives_up unhealthy secure_alpha both_open false false refl tt unhealthy-IsFailing

-- An environment in which all goes well.
abbrev friendly : ℕ → InitPoint → Reply
friendly n (probing a) = probed peer both_open
friendly n (main_ready a) = ready
friendly n (health_ready a) = ready
friendly n (setting_up a) = set_up true none
friendly n (checking_tls a) = tls_answer false
friendly n (backing_off a) = woke both_open

init_connects_example :
    IsConnected
      (IsFound friendly 30)
      (init_loop friendly 30 (init_start secure_alpha both_open)).0.secure_credentials
      (init_loop friendly 30 (init_start secure_alpha both_open)).0.gateway_credentials
      (init_loop friendly 30 (init_start secure_alpha both_open)).0
unfolding init_loop init_start init_resume
init_connects_example = init_connects friendly 30 secure_alpha both_open none refl
