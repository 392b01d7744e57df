-- ===== src/Runner/Init/Transient.antt =====
-- An environment in which each attempt of `ModelRunner.init` fails by an exception after which `init` tries
-- again, at whatever await it comes.
use model_runner_client.Base.{ℕ, suc, ◌≡◌, refl, Bool, true, false}
use model_runner_client.Runner.{Exception, rpc_error, timeout_error, value_error, other_error}
use model_runner_client.Runner.Init.{
  InitPoint, probing, main_ready, health_ready, setting_up, checking_tls, backing_off, Opens,
  both_open, main_fails, health_fails, Reply, probed, ready, tls_answer, woke, raised,
}
use model_runner_client.Runner.Init.Bounded.{fits}

-- The exceptions after which `init` tries again.
abbrev pub IsTransient : Exception → Type 0
IsTransient rpc_error = Unit
IsTransient timeout_error = Unit
IsTransient value_error = Unit
IsTransient other_error = Unit
IsTransient _ = ⊥

-- The exceptions that `init` takes for a connection failure.
abbrev pub is_connection_error : Exception → Bool
is_connection_error rpc_error = true
is_connection_error timeout_error = true
is_connection_error _ = false

-- A transient exception, and one of the connection if `conn` says that all are.
abbrev pub Fails : Bool → Exception → Type 0
Fails conn e = IsTransient e × (conn ≡ true → is_connection_error e ≡ true)

-- The creation of the channels succeeds, or fails like that.
abbrev pub OpensOrFails : Bool → Opens → Type 0
OpensOrFails conn both_open = Unit
OpensOrFails conn (main_fails e) = Fails conn e
OpensOrFails conn (health_fails e) = Fails conn e

-- The replies of an environment in which every attempt fails, at `setup` if not before, and whose server
-- does or does not speak TLS.
abbrev pub IsFailing : Bool → Bool → InitPoint → Reply → Type 0
IsFailing tls conn (probing a) (probed peer o) = OpensOrFails conn o
IsFailing tls conn (probing a) (raised e) = Fails conn e
IsFailing tls conn (main_ready a) ready = Unit
IsFailing tls conn (main_ready a) (raised e) = Fails conn e
IsFailing tls conn (health_ready a) ready = Unit
IsFailing tls conn (health_ready a) (raised e) = Fails conn e
IsFailing tls conn (setting_up a) (raised e) = Fails conn e
IsFailing tls conn (checking_tls a) (tls_answer b) = b ≡ tls
IsFailing tls conn (backing_off a) (woke o) = OpensOrFails conn o
IsFailing tls conn p x = ⊥

pub IsFailing-fits :
    (tls conn : Bool) (p : InitPoint) (x : Reply) → IsFailing tls conn p x → fits p x ≡ true
IsFailing-fits tls conn (probing a) (probed peer o) h = refl
IsFailing-fits tls conn (probing a) (raised e) h = refl
IsFailing-fits tls conn (main_ready a) ready h = refl
IsFailing-fits tls conn (main_ready a) (raised e) h = refl
IsFailing-fits tls conn (health_ready a) ready h = refl
IsFailing-fits tls conn (health_ready a) (raised e) h = refl
IsFailing-fits tls conn (setting_up a) (raised e) h = refl
IsFailing-fits tls conn (checking_tls a) (tls_answer b) h = refl
IsFailing-fits tls conn (backing_off a) (woke o) h = refl
IsFailing-fits tls conn _ _ h = absurd h

-- The attempts that have begun after an await, if it was in attempt `a`.
abbrev pub next_attempt : InitPoint → ℕ → ℕ
next_attempt (backing_off b) a = suc a
next_attempt p a = a
