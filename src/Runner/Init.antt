-- ===== src/Runner/Init.antt =====
-- `ModelRunner.init` of model_runner_client/model_runners/model_runner.py, and the three functions
-- that create channels. `init` is a coroutine: it runs from one `await` to the next, and what it
-- waits for is answered by the environment. A point names an `await` and the attempt that it
-- belongs to, and a reply says how the await ended.
pub mod Bounded
pub mod Transient
pub mod Failing
pub mod Outcome
pub mod Closed
pub mod Frame
pub mod Channels
pub mod Probed
use model_runner_client.Base.{
  ℕ, zero, suc, ◌+◌, ◌^◌, Bool, true, false, not, Option, none, some, ltb, List, [], ◌∷◌,
  if◌then◌else◌, is_some, String,
}
use model_runner_client.Base.Eq.{string_equality}
use model_runner_client.Dict
use model_runner_client.Credentials.{SecureCredentials, GatewayCredentials}
use model_runner_client.Runner.{
  ModelRunner, ErrorType, grpc_connection_failed, aborted, auth_error, Exception, rpc_error,
  timeout_error, usage_error, auth_failure, tls_probe_error, value_error, other_error, Key, Infos,
  PeerTlsRsaKey, Interceptor, wallet_tls_auth, gateway_auth, Channel, insecure_channel,
  secure_channel, retry_attempts,
}

-- The awaits of `init`.
pub data InitPoint : Type 0 where
  -- `fetch_peer_rsa_spki_mtls`
  probing : ℕ → InitPoint
  -- the two `channel_ready`
  main_ready : ℕ → InitPoint
  health_ready : ℕ → InitPoint
  -- `self.setup`
  setting_up : ℕ → InitPoint
  -- `is_tls_connection`
  checking_tls : ℕ → InitPoint
  -- `asyncio.sleep`
  backing_off : ℕ → InitPoint

-- How the creation of the two channels goes: the first or the second may raise.
pub data Opens : Type 0 where
  both_open : Opens
  main_fails : Exception → Opens
  health_fails : Exception → Opens

-- How an await ends. Where channels are created before the next await, the reply says how that goes.
pub data Reply : Type 0 where
  probed : PeerTlsRsaKey → Opens → Reply
  ready : Reply
  set_up : Bool → Option ErrorType → Reply
  tls_answer : Bool → Reply
  woke : Opens → Reply
  raised : Exception → Reply

pub data InitState : Type 0 where
  waiting : InitPoint → InitState
  returned : Bool → Option ErrorType → InitState
  raises : Exception → InitState

-- `self.infos.get(key)`
unfoldable pub infos_get : String → Option Infos → Option String
infos_get key none = none
infos_get key (some infos) = Dict.get key infos

-- The channels that `_connect_insecure_channels` creates.
abbrev pub insecure_channels : ModelRunner → Channel × Channel
insecure_channels r = (insecure_channel r.ip r.port, insecure_channel r.ip r.port)

-- The channels that `_connect_gateway_channels` creates.
unfoldable pub gateway_channels : GatewayCredentials → ModelRunner → Channel × Channel
gateway_channels g r = (
  secure_channel r.ip r.port none (some (gateway_auth g.private_key r.model_id)),
  secure_channel r.ip r.port none none,
)

-- The channels that `_connect_secure_channels` creates from what the TLS probe found.
unfoldable pub secure_channels : SecureCredentials → PeerTlsRsaKey → ModelRunner → Channel × Channel
unfolding infos_get
secure_channels c peer r =
    let creds = some (peer, c) in
    let wallet = infos_get "cruncher_wallet_pubkey" r.infos in
    let hotkey = infos_get "cruncher_hotkey" r.infos in
    (
      secure_channel r.ip r.port creds
          (some (wallet_tls_auth wallet hotkey r.model_id peer.spki_der)),
      secure_channel r.ip r.port creds none,
    )

-- The end of the loop's body.
retry : ModelRunner → ℕ → ModelRunner × InitState
retry r attempt =
    if ltb attempt retry_attempts
    then (r, waiting (backing_off attempt))
    else (r, returned false (some grpc_connection_failed))

-- `is_secure_connection`
abbrev pub is_secure : ModelRunner → Bool
is_secure r = is_some r.secure_credentials

connection_failed : ModelRunner → ℕ → ModelRunner × InitState
unfolding retry
connection_failed r attempt =
    if is_secure r then retry r attempt else (r, waiting (checking_tls attempt))

-- The four `except` clauses.
except : ModelRunner → ℕ → Exception → ModelRunner × InitState
unfolding connection_failed retry
except r attempt rpc_error = connection_failed r attempt
except r attempt timeout_error = connection_failed r attempt
except r attempt usage_error = (r, raises usage_error)
except r attempt auth_failure = (r, returned false (some auth_error))
except r attempt tls_probe_error = (r, returned false (some auth_error))
except r attempt value_error =
    if r.closed then (r, returned false (some aborted)) else retry r attempt
except r attempt other_error =
    if r.closed then (r, returned false (some aborted)) else retry r attempt

-- The assignments of the two channels, and the first await after them.
open_channels : ModelRunner → ℕ → Channel × Channel → Opens → ModelRunner × InitState
unfolding except
open_channels r attempt (main, health) both_open = (
  record r { grpc_channel = some main; grpc_health_channel = some health },
  waiting (main_ready attempt),
)
open_channels r attempt (main, health) (main_fails e) = except r attempt e
open_channels r attempt (main, health) (health_fails e) =
    except (record r { grpc_channel = some main }) attempt e

-- The choice of the connection at the head of the `try`.
connect :
    Option SecureCredentials
    → Option GatewayCredentials
    → ModelRunner
    → ℕ
    → Opens
    → ModelRunner × InitState
unfolding open_channels
connect (some c) g r attempt opens = (r, waiting (probing attempt))
connect none (some g) r attempt opens = open_channels r attempt (gateway_channels g r) opens
connect none none r attempt opens = open_channels r attempt (insecure_channels r) opens

-- One turn of the loop, up to its first await.
pub begin_attempt : ModelRunner → ℕ → Opens → ModelRunner × InitState
unfolding connect
begin_attempt r attempt opens =
    if r.closed
    then (r, returned false (some aborted))
    else connect r.secure_credentials r.gateway_credentials r attempt opens

-- A call of `init`, up to its first await.
unfoldable pub init_start : ModelRunner → Opens → ModelRunner × InitState
unfolding begin_attempt
init_start r opens = begin_attempt r 1 opens

-- The rest of `_connect_secure_channels` after the probe. Without `infos`, `self.infos.get` raises.
after_probe :
    Option SecureCredentials
    → Option Infos
    → ModelRunner
    → ℕ
    → PeerTlsRsaKey
    → Opens
    → ModelRunner × InitState
unfolding open_channels except
after_probe none infos r attempt peer opens = except r attempt other_error
after_probe (some c) none r attempt peer opens = except r attempt other_error
after_probe (some c) (some infos) r attempt peer opens =
    open_channels r attempt (secure_channels c peer r) opens

-- From one await to the next. A reply that the await cannot give leaves `init` waiting.
unfoldable pub init_resume : ModelRunner → InitPoint → Reply → ModelRunner × InitState
unfolding begin_attempt after_probe
init_resume r (probing a) (probed peer opens) =
    after_probe r.secure_credentials r.infos r a peer opens
init_resume r (probing a) (raised e) = except r a e
init_resume r (main_ready a) ready = (r, waiting (health_ready a))
init_resume r (main_ready a) (raised e) = except r a e
init_resume r (health_ready a) ready = (r, waiting (setting_up a))
init_resume r (health_ready a) (raised e) = except r a e
init_resume r (setting_up a) (set_up succeed error) = (r, returned succeed error)
init_resume r (setting_up a) (raised e) = except r a e
init_resume r (checking_tls a) (tls_answer true) = (r, raises usage_error)
init_resume r (checking_tls a) (tls_answer false) = retry r a
init_resume r (checking_tls a) (raised e) = (r, raises e)
init_resume r (backing_off a) (woke opens) = begin_attempt r (suc a) opens
init_resume r p _ = (r, waiting p)

-- The seconds that `init` sleeps at a point.
unfoldable pub backoff_time : ModelRunner → ℕ → ℕ
backoff_time r attempt = r.retry_backoff_factor ^ attempt

-- A call of `init` that nobody else interferes with, for `n` replies at most. The environment
-- answers each await.
unfoldable pub init_loop :
    (ℕ → InitPoint → Reply) → ℕ → ModelRunner × InitState → ModelRunner × InitState
init_loop answer zero s = s
init_loop answer (suc n) (r, waiting p) = init_loop answer n (init_resume r p (answer n p))
init_loop answer (suc n) (r, returned succeed error) = (r, returned succeed error)
init_loop answer (suc n) (r, raises e) = (r, raises e)
