-- ===== src/Runner.antt =====
-- model_runner_client/model_runners/model_runner.py: the object `ModelRunner`, its health counters,
-- its channels and `close`. The connection procedure `init` is in Runner/Init, and the proofs are
-- in the other modules below.
pub mod Cooldown
pub mod Init
use model_runner_client.Base.{
  ℕ, zero, suc, ◌+◌, ◌/◌, ◌-◌, String, Bool, true, false, ◌&&◌, Option, none, some, ltb,
  if◌then◌else◌, is_some,
}
use model_runner_client.Base.Int.{ℤ, pos, negsuc, is_positive, is_zero, pred_ℤ}
use model_runner_client.Dict.{Dict}
use model_runner_client.Credentials.{PrivateKey, SecureCredentials, GatewayCredentials}

-- `ModelRunner.ErrorType`
pub data ErrorType : Type 0 where
  grpc_connection_failed failed bad_implementation aborted auth_error : ErrorType

-- The exceptions that the program tells apart. `value_error` is the decode error, and `other_error`
-- any other subclass of `Exception`.
pub data Exception : Type 0 where
  rpc_error timeout_error usage_error auth_failure tls_probe_error value_error other_error :
      Exception

-- A dictionary key, name or address that came out of a JSON object by `.get`: it may be `None`.
abbrev pub Key : Type 0
Key = Option String

-- The `infos` of a model: a JSON object of texts.
abbrev pub Infos : Type 0
Infos = Dict String String

-- `PeerTlsRsaKey`: what the TLS probe found out about the server.
pub record PeerTlsRsaKey : Type 0 where
  pub leaf_cert_pem : String
  pub spki_der : String

-- The interceptors that are attached to a channel.
pub data Interceptor : Type 0 where
  wallet_tls_auth : Option String → Option String → Key → String → Interceptor
  gateway_auth : PrivateKey → Key → Interceptor

-- A gRPC channel by the arguments that it is created with.
pub data Channel : Type 0 where
  insecure_channel : Option String → Option ℕ → Channel
  secure_channel :
      Option String
      → Option ℕ
      → Option (PeerTlsRsaKey × SecureCredentials)
      → Option Interceptor
      → Channel

pub record ModelRunner : Type 0 where
  pub deployment_id : Key
  pub model_id : Key
  pub model_name : Option String
  pub ip : Option String
  pub port : Option ℕ
  pub infos : Option Infos
  pub retry_backoff_factor : ℕ
  pub grpc_channel : Option Channel
  pub grpc_health_channel : Option Channel
  pub closed : Bool
  pub consecutive_failures : ℕ
  pub consecutive_timeouts : ℕ
  pub cooldown_calls_remaining : ℤ
  pub secure_credentials : Option SecureCredentials
  pub gateway_credentials : Option GatewayCredentials

-- `self.retry_attempts`, which the constructor sets and nothing changes.
abbrev pub retry_attempts : ℕ
retry_attempts = 5

-- The constructor: `none` is the `ValueError` on two kinds of credentials.
unfoldable pub new_runner :
    Key
    → Key
    → Option String
    → Option String
    → Option ℕ
    → Option Infos
    → Option SecureCredentials
    → Option GatewayCredentials
    → Option ModelRunner
new_runner deployment_id model_id model_name ip port infos secure gateway =
    if is_some secure && is_some gateway
    then none
    else some (record {
      deployment_id = deployment_id;
      model_id = model_id;
      model_name = model_name;
      ip = ip;
      port = port;
      infos = infos;
      retry_backoff_factor = 2;
      grpc_channel = none;
      grpc_health_channel = none;
      closed = false;
      consecutive_failures = 0;
      consecutive_timeouts = 0;
      cooldown_calls_remaining = pos 0;
      secure_credentials = secure;
      gateway_credentials = gateway;
    })

unfoldable pub register_failure : ModelRunner → ModelRunner
register_failure r = record r { consecutive_failures = r.consecutive_failures + 1 }

unfoldable pub register_timeout : ModelRunner → ModelRunner
register_timeout r = record r { consecutive_timeouts = r.consecutive_timeouts + 1 }

unfoldable pub reset_failures : ModelRunner → ModelRunner
reset_failures r = record r { consecutive_failures = 0 }

unfoldable pub reset_timeouts : ModelRunner → ModelRunner
reset_timeouts r = record r { consecutive_timeouts = 0 }

-- `math.ceil(n / 2)`
abbrev pub half_up : ℕ → ℕ
half_up n = (n + 1) / 2

-- The body of the last `if` of `should_skip_for_timeout_reason`.
begin_cooldown : ModelRunner → ℕ → ModelRunner × Bool
begin_cooldown r cooldown_calls =
    let r' = record r { cooldown_calls_remaining = pos cooldown_calls } in
    if ltb 0 cooldown_calls
    then (record r' { cooldown_calls_remaining = pred_ℤ r'.cooldown_calls_remaining }, true)
    else (r', false)

start_cooldown : ModelRunner → ModelRunner × Bool
unfolding begin_cooldown
start_cooldown r =
    if ltb 0 r.consecutive_timeouts
    then begin_cooldown r (half_up r.consecutive_timeouts)
    else (r, false)

unfoldable pub should_skip_for_timeout_reason : ModelRunner → ModelRunner × Bool
unfolding start_cooldown
should_skip_for_timeout_reason r =
    if is_positive r.cooldown_calls_remaining
    then (record r { cooldown_calls_remaining = pred_ℤ r.cooldown_calls_remaining }, true)
    else if is_zero r.cooldown_calls_remaining
    then (record r { cooldown_calls_remaining = negsuc 0 }, false)
    else start_cooldown r

-- The part of `close` before its `await`. What it awaits is the closing of the two channels.
unfoldable pub close : ModelRunner → ModelRunner
close r = record r { closed = true }
