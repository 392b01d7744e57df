-- ===== src/Runner/Init/Channels.antt =====
-- Which channels a runner holds when `ModelRunner.init` has succeeded.
use model_runner_client.Base.{
  ℕ, zero, suc, ◌<◌, ◌≡◌, refl, true, false, Option, none, some, arith, inl, inr, Bool-cases,
}
use model_runner_client.Credentials.{SecureCredentials, GatewayCredentials}
use model_runner_client.Runner.{
  ModelRunner, ErrorType, Exception, rpc_error, other_error, Infos, PeerTlsRsaKey, Channel,
  insecure_channel, secure_channel, wallet_tls_auth, gateway_auth,
}
use model_runner_client.Runner.Init.{
  InitPoint, probing, main_ready, health_ready, setting_up, checking_tls, backing_off, Opens,
  both_open, main_fails, health_fails, Reply, probed, ready, set_up, tls_answer, woke, raised,
  InitState, waiting, returned, raises, except, open_channels, connect, begin_attempt, after_probe,
  init_start, init_resume, init_loop, infos_get, retry, secure_channels, gateway_channels,
  insecure_channels,
}

-- One of the first `n` replies of the environment to a TLS probe found this key.
abbrev pub IsFound : (ℕ → InitPoint → Reply) → ℕ → PeerTlsRsaKey → Type 0
IsFound answer n peer =
    (i : ℕ) × (a : ℕ) × (opens : Opens) × (i < n) × (answer i (probing a) ≡ probed peer opens)

-- The two channels of the runner's kind of connection. The certificate to which the secure channels
-- are pinned and the key that the interceptor expects come from one TLS probe, of which `P` holds.
abbrev pub IsConnected :
    (PeerTlsRsaKey → Type 0)
    → Option SecureCredentials
    → Option GatewayCredentials
    → ModelRunner
    → Type 0
IsConnected P (some c) g r =
    (peer : PeerTlsRsaKey) × P peer
    × (r.grpc_channel
        ≡ some (
            secure_channel r.ip r.port (some (peer, c)) (
              some (
                wallet_tls_auth (infos_get "cruncher_wallet_pubkey" r.infos)
                  (infos_get "cruncher_hotkey" r.infos) r.model_id peer.spki_der))))
    × (r.grpc_health_channel ≡ some (secure_channel r.ip r.port (some (peer, c)) none))
IsConnected P none (some g) r =
    (r.grpc_channel
      ≡ some (secure_channel r.ip r.port none (some (gateway_auth g.private_key r.model_id))))
    × (r.grpc_health_channel ≡ some (secure_channel r.ip r.port none none))
IsConnected P none none r =
    (r.grpc_channel ≡ some (insecure_channel r.ip r.port))
    × (r.grpc_health_channel ≡ some (insecure_channel r.ip r.port))

module _ (P : PeerTlsRsaKey → Type 0) where
  abbrev Connected : ModelRunner → Type 0
  Connected r = IsConnected P r.secure_credentials r.gateway_credentials r

  -- From the creation of the channels to a successful end the runner is connected.
  abbrev Guarded : ModelRunner → InitState → Type 0
  Guarded r (waiting (main_ready a)) = Connected r
  Guarded r (waiting (health_ready a)) = Connected r
  Guarded r (waiting (setting_up a)) = Connected r
  Guarded r (returned true e) = Connected r
  Guarded r _ = Unit

  -- What a probe finds has the property.
  abbrev Finds : InitPoint → Reply → Type 0
  Finds (probing a) (probed peer opens) = P peer
  Finds p x = Unit

  retry-Guarded : (r : ModelRunner) (a : ℕ) → Guarded (retry r a).0 (retry r a).1
  unfolding retry
  retry-Guarded r a = ground arith

  except-Guarded :
      (r : ModelRunner) (a : ℕ) (e : Exception) → Guarded (except r a e).0 (except r a e).1
  unfolding except
  except-Guarded r a rpc_error = ground arith
  except-Guarded r a _ = ground arith

  open_channels-Guarded :
      (r : ModelRunner) (a : ℕ) (c : Channel × Channel) (o : Opens)
      → (Connected (record r { grpc_channel = some c.0; grpc_health_channel = some c.1 }))
      → Guarded (open_channels r a c o).0 (open_channels r a c o).1
  unfolding open_channels
  open_channels-Guarded r a (m, h) both_open g = g
  open_channels-Guarded r a (m, h) (main_fails e) g = except-Guarded r a e
  open_channels-Guarded r a (m, h) (health_fails e) g =
      except-Guarded (record r { grpc_channel = some m }) a e

  connect-Guarded :
      (c : Option SecureCredentials) (g : Option GatewayCredentials) (r : ModelRunner) (a : ℕ)
      (o : Opens)
      → r.secure_credentials ≡ c
      → r.gateway_credentials ≡ g
      → Guarded (connect c g r a o).0 (connect c g r a o).1
  unfolding connect gateway_channels
  connect-Guarded (some c) g r a o e f = tt
  connect-Guarded none (some g) r a o e f =
      open_channels-Guarded r a (gateway_channels g r) o (simp (e, f) (refl, refl))
  connect-Guarded none none r a o e f =
      open_channels-Guarded r a (insecure_channels r) o (simp (e, f) (refl, refl))

  begin_attempt-Guarded :
      (r : ModelRunner) (a : ℕ) (o : Opens)
      → Guarded (begin_attempt r a o).0 (begin_attempt r a o).1
  unfolding begin_attempt
  begin_attempt-Guarded r a o = elim (Bool-cases r.closed) [
    | inl e ↦ simp e tt
    | inr e ↦ simp e (connect-Guarded r.secure_credentials r.gateway_credentials r a o refl refl)
  ]

  after_probe-Guarded :
      (c : Option SecureCredentials) (infos : Option Infos) (r : ModelRunner) (a : ℕ)
      (peer : PeerTlsRsaKey) (o : Opens)
      → P peer
      → r.secure_credentials ≡ c
      → Guarded (after_probe c infos r a peer o).0 (after_probe c infos r a peer o).1
  unfolding after_probe secure_channels
  after_probe-Guarded none infos r a peer o q e = except-Guarded r a other_error
  after_probe-Guarded (some c) none r a peer o q e = except-Guarded r a other_error
  after_probe-Guarded (some c) (some infos) r a peer o q e =
      open_channels-Guarded r a (secure_channels c peer r) o (simp e (peer, q, refl, refl))

  init_resume-Guarded :
      (r : ModelRunner) (p : InitPoint) (x : Reply)
      → Finds p x
      → Guarded r (waiting p)
      → Guarded (init_resume r p x).0 (init_resume r p x).1
  unfolding init_resume
  init_resume-Guarded r (probing a) (probed peer o) f g =
      after_probe-Guarded r.secure_credentials r.infos r a peer o f refl
  init_resume-Guarded r (probing a) (raised e) f g = except-Guarded r a e
  init_resume-Guarded r (main_ready a) ready f g = g
  init_resume-Guarded r (main_ready a) (raised e) f g = except-Guarded r a e
  init_resume-Guarded r (health_ready a) ready f g = g
  init_resume-Guarded r (health_ready a) (raised e) f g = except-Guarded r a e
  init_resume-Guarded r (setting_up a) (set_up true error) f g = g
  init_resume-Guarded r (setting_up a) (set_up false error) f g = tt
  init_resume-Guarded r (setting_up a) (raised e) f g = except-Guarded r a e
  init_resume-Guarded r (checking_tls a) (tls_answer true) f g = tt
  init_resume-Guarded r (checking_tls a) (tls_answer false) f g = retry-Guarded r a
  init_resume-Guarded r (checking_tls a) (raised e) f g = tt
  init_resume-Guarded r (backing_off a) (woke o) f g = begin_attempt-Guarded r (suc a) o
  init_resume-Guarded r _ _ f g = g

  -- What the first `n` replies find has the property.
  abbrev FindsAll : (ℕ → InitPoint → Reply) → ℕ → Type 0
  FindsAll answer n = (peer : PeerTlsRsaKey) → IsFound answer n peer → P peer

  FindsAll-Finds :
      (answer : ℕ → InitPoint → Reply) (n : ℕ) (p : InitPoint) (x : Reply)
      → FindsAll answer (suc n)
      → answer n p ≡ x
      → Finds p x
  FindsAll-Finds answer n (probing a) (probed peer opens) f e = f peer (n, a, opens, omega arith, e)
  FindsAll-Finds answer n _ _ f e = tt

  init_loop-Guarded :
      (answer : ℕ → InitPoint → Reply) (n : ℕ) (r : ModelRunner) (s : InitState)
      → FindsAll answer n
      → Guarded r s
      → Guarded (init_loop answer n (r, s)).0 (init_loop answer n (r, s)).1
  unfolding init_loop
  init_loop-Guarded answer zero r (waiting p) f g = g
  init_loop-Guarded answer (suc n) r (waiting p) f g =
      let x = answer n p in
      init_loop-Guarded answer n (init_resume r p x).0 (init_resume r p x).1
        (λ peer (i, a, o, l, e). f peer (i, a, o, omega arith, e))
        (init_resume-Guarded r p x (FindsAll-Finds answer n p x f refl) g)
  init_loop-Guarded answer zero r (returned b e) f g = g
  init_loop-Guarded answer (suc n) r (returned b e) f g = g
  init_loop-Guarded answer zero r (raises e) f g = g
  init_loop-Guarded answer (suc n) r (raises e) f g = g

-- A successful `init` leaves the runner with the two channels of its kind of connection, to its
-- address. With secure credentials both are pinned to the certificate that one of its TLS probes has
-- found, and the main one checks the wallet, the hotkey, the runner's model id and the key of that
-- certificate. With gateway credentials the main one signs for the model id. The health channel has
-- no interceptor.
pub init_connects :
    (answer : ℕ → InitPoint → Reply) (n : ℕ) (r : ModelRunner) (opens : Opens)
    (e : Option ErrorType)
    → (init_loop answer n (init_start r opens)).1 ≡ returned true e
    → let s = (init_loop answer n (init_start r opens)).0 in
      IsConnected (IsFound answer n) s.secure_credentials s.gateway_credentials s
unfolding init_start
init_connects answer n r opens e h =
    let P = IsFound answer n in
    let g =
      init_loop-Guarded P answer n (begin_attempt r 1 opens).0 (begin_attempt r 1 opens).1
        (λ peer f. f) (begin_attempt-Guarded P r 1 opens) in
    rw h at g
