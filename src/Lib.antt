-- ===== src/Lib.antt =====
-- A verification library for the model runner client: the Python package `model_runner_client`, by which
-- a coordinator keeps connections to the models of a crunch and calls them concurrently.
--
-- The program. The orchestrator sends events over a WebSocket (websocket_client.py). The cluster
-- (model_cluster.py) keeps a runner for each model that the events name: a runner is pending while it
-- connects, and running afterwards. A runner (model_runners/model_runner.py) holds the gRPC channels of
-- one model and the counters of its failures and timeouts. The concurrent runner
-- (model_concurrent_runners/model_concurrent_runner.py) calls a method on all running models, counts what
-- goes wrong, and starts tasks in the cluster that report, remove or reconnect a model. Calls to a model
-- node in secure mode are checked against the delegation of its wallet, and calls through a gateway are
-- signed (security/). All paths are below model_runner_client/.
--
-- The files.
-- - Runner: `ModelRunner` of model_runners/model_runner.py. The record has the fields of the object; each
--   method is a function from the object to the changed object and the result. Runner/Init is the
--   coroutine `init`: `init_start` runs to the first await, `init_resume` from one await to the next,
--   `except` is its four except clauses, `retry` the end of the loop's body.
--   Runner/Init/Probed joins it to the TLS probe.
-- - Credentials: the two kinds of credentials of security/credentials.py and gateway_credentials.py, with
--   the settings of the TLS context. The file system, the checks of `ssl` and the PEM parser are the fields
--   of `Os`, a parameter.
-- - Probe: security/tls_peer_key.py. `Opening` and `Session` say how the connection and its first read end;
--   the parser of certificates is `X509`, a parameter.
-- - GatewayAuth: the interceptor of security/gateway_auth_interceptor.py. RSA, base64 and JSON are the
--   fields of `Crypto`, a parameter, and the time is an argument.
-- - Websocket: `WebsocketClient` of websocket_client.py. Websocket/Listen is an iteration of `listen`: the
--   messages that other tasks put while it receives come by `send_message` between the iterations.
-- - Concurrent: `_execute_model_method_with_timeout` as `call_start`, `method_end`, `conclude_timeout`, and
--   `execute` for a call that nobody else interferes with; the comprehension at the end of
--   `_execute_concurrent_method` as `collect`, and the whole method in Concurrent/Whole for calls that do
--   not interfere.
-- - Calls: `_execute_concurrent_method` again, with calls that take turns with each other, with those of
--   other concurrent calls and with the tasks of the cluster, on shared runners.
-- - Cluster: `ModelCluster` of model_cluster.py. Runners are places of a heap and are compared by
--   identity. `Task` is a coroutine at one of its awaits; Cluster/Coroutines has the steps of the
--   coroutines, and `resume` gives a task a turn. Cluster/Updates is
--   `update_model_runs` and `handle_init_event`, Cluster/World puts the tasks beside the cluster:
--   `step` is an event of the orchestrator, a turn of one task, a task that a call starts, counters that it
--   writes, or a change of the connection to the orchestrator, and `run` a history of such events in any
--   order. The model factory is `create_model_runner` of
--   model_concurrent_runners/dynamic_subclass_model_concurrent_runner.py.
-- - Sync: the coroutines `ModelCluster.init` and `sync`, which receive the messages of the orchestrator one
--   after the other and wait for the tasks of each, over `connect`, `init`, `listen` and `handle_event` of
--   websocket_client.py and `handle_event` of model_cluster.py. Its runs refine the histories of
--   Cluster/World, so what is shown for all histories holds for them.
-- - Auth: `verify_wallet_delegation` of security/wallet_gelegation.py with the functions that it calls.
--   Auth/Headers is the interceptor of security/grpc_auth_interceptor.py from where the call exists. The
--   decoders, Ed25519 and `str.lower` are the fields of a `Codec`, a parameter.
-- - Subclass: `setup` and `call` of model_runners/dynamic_subclass_model_runner.py, with the requests that
--   they send; what the model node answers is a function. Subclass/Factory has the constructors of this
--   runner and of model_concurrent_runners/dynamic_subclass_model_concurrent_runner.py, and its
--   `create_model_runner`; Subclass/Concurrent is its `call`.
-- - Transform: utils/datatype_transformer.py. Integers are modelled in full, as bytes below 256; the other
--   formats are the fields of `Formats`, a parameter.
-- - Base, Dict: tests on the native numbers, lists, and association lists with the laws of a dictionary.
--
-- How the code was read. Every await is a point where other tasks may run, and what it gives comes from
-- the environment: gRPC, sockets, `websockets` and sleeping are not modelled, and the theorems hold
-- for all their answers. A coroutine that does not in fact give up control at an await is covered, since
-- its turns can follow each other at once. `close` is one assignment and an await. Dictionary values,
-- keys, addresses and infos are texts and may be missing. `math.ceil(n / 2)` is `(n + 1) / 2` and
-- `int(n * 0.2)` is `n / 5`. The backoff factor is a natural number; the cluster's factory leaves it at
-- the default 2. A set of keys is processed in the order of the dictionary; the tasks that come of it can
-- take their turns in any order. Two fields of `WebsocketClient` are no fields of the source: they record
-- what was sent, and what `send_message` has taken over.
--
-- Bounds. `init` makes at most 5 attempts with at most 4 awaits and one sleep each besides the TLS
-- question, so 30 replies are enough for it to end; `connect` of the WebSocket makes 5 attempts. A task of
-- the cluster has an `init` of its own, two removals and a send at most, which makes 35 turns.
--
-- Not modelled. Log messages, the texts of most errors, gRPC options, time, and the cancellation of tasks.
-- `disconnect_sync` and `__del__` of the WebSocket client, which run `disconnect` at the end of the
-- process; the function `start` below the class of model_cluster.py, which nothing calls and which takes a
-- `self`. The elements of an event's data are taken to be objects with texts. errors/ is a constructor of
-- `Exception`. The generated gRPC code and the debug script.
pub mod Base
pub mod Dict
pub mod Credentials
pub mod Runner
pub mod Probe
pub mod Websocket
pub mod Concurrent
pub mod Cluster
pub mod Calls
pub mod Sync
pub mod Auth
pub mod GatewayAuth
pub mod Subclass
pub mod Transform
mod Tests
