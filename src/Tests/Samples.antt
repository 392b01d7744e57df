-- ===== src/Tests/Samples.antt =====
-- The runners, the settings and the orchestrator messages of the tests.
use model_runner_client.Base.{true, false, none, some, List, [], ◌∷◌, String}
use model_runner_client.Base.Int.{negsuc}
use model_runner_client.Credentials.Secure.{verifying}
use model_runner_client.Credentials.{SecureCredentials}
use model_runner_client.Runner.{ModelRunner, PeerTlsRsaKey}
use model_runner_client.Concurrent.{Config}
use model_runner_client.Cluster.Coroutines.{go, init_reply}
use model_runner_client.Runner.Init.{both_open, ready, set_up}
use model_runner_client.Cluster.Updates.{ModelUpdate}
use model_runner_client.Cluster.World.{Event, turn, update, World, new_world}

-- A runner that was let through at its last call.
abbrev pub alpha : ModelRunner
alpha = record {
  deployment_id = some "d1";
  model_id = some "m1";
  model_name = some "alpha";
  ip = some "10.0.0.1";
  port = some 50051;
  infos = some [];
  retry_backoff_factor = 2;
  grpc_channel = none;
  grpc_health_channel = none;
  closed = false;
  consecutive_failures = 0;
  consecutive_timeouts = 0;
  cooldown_calls_remaining = negsuc 0;
  secure_credentials = none;
  gateway_credentials = none;
}

abbrev pub credentials : SecureCredentials
credentials = record {
  ca_bytes = "ca";
  cert_bytes = "cert";
  key_bytes = "key";
  tls_ctx = some (verifying "ca" "cert" "key");
}

abbrev pub secure_alpha : ModelRunner
secure_alpha = record alpha { secure_credentials = some credentials }

abbrev pub peer : PeerTlsRsaKey
peer = record { leaf_cert_pem = "leaf"; spki_der = "spki" }

abbrev pub limits : Config
limits = record { timeout_s = 10; max_consecutive_failures = 2; max_consecutive_timeout = 2 }

abbrev pub update_to : String → ModelUpdate
update_to state = record {
  deployment_id = some "d1";
  model_id_field = some (some "m1");
  infos = none;
  state = some state;
  ip = some "10.0.0.1";
  port = some 50051;
}

abbrev pub empty_world : World
empty_world = new_world alpha true none none

-- The orchestrator names a model, and its task comes to the `init` of the runner.
abbrev pub started : List Event
started = update (update_to "RUNNING" ∷ []) ∷ turn 0 (go both_open) ∷ []

-- The `init` succeeds, the model is stopped, and its runner is closed.
abbrev pub stopped : List Event
stopped =
    update (update_to "RUNNING" ∷ [])
    ∷ turn 0 (go both_open)
    ∷ turn 0 (init_reply ready)
    ∷ turn 0 (init_reply ready)
    ∷ turn 0 (init_reply (set_up true none))
    ∷ update (update_to "STOPPED" ∷ [])
    ∷ turn 1 (go both_open)
    ∷ []
