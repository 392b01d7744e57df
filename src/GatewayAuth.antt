-- ===== src/GatewayAuth.antt =====
-- model_runner_client/security/gateway_auth_interceptor.py: the interceptor that signs each call to a
-- gateway. The libraries for RSA, base64 and JSON are parameters; the time is an argument.
pub mod Signed
use model_runner_client.Base.{ℕ, Bool, Option, none, some, [], ◌∷◌, ◌++◌, String}
use model_runner_client.Runner.{Key}
use model_runner_client.Credentials.{PrivateKey, rsa_key, other_key}
use model_runner_client.Auth.Headers.{MdValue, ascii, Metadata}

-- The library functions that signing calls. Bytes are texts of characters below 256.
pub record Crypto : Type 0 where
  -- `private_key.sign(data, PKCS1v15(), SHA256())` for an RSA key
  pub rsa_sign : String → String → String
  -- `private_key.public_key().public_bytes(DER, SubjectPublicKeyInfo)`
  pub public_bytes : PrivateKey → String
  pub b64encode : String → String
  -- `json.dumps({"model_id": ..., "timestamp": ...}, separators=(",", ":")).encode()`
  pub dumps : Key → ℕ → String

-- The fields of `GatewayAuthClientInterceptor`.
pub record GatewayAuthClientInterceptor : Type 0 where
  pub private_key : PrivateKey
  pub model_id : Key
  pub pubkey_b64 : String

-- `_ClientCallDetails`, and what the interceptor reads of `grpc.aio.ClientCallDetails`.
pub record ClientCallDetails : Type 0 where
  pub method : String
  pub timeout : Option ℕ
  pub metadata : Option Metadata
  pub credentials : Option String
  pub wait_for_ready : Option Bool

-- `client_call_details.metadata or []`
abbrev pub entries : Option Metadata → Metadata
entries none = []
entries (some md) = md

module _ (c : Crypto) where
  -- `_sign`; `none` is the `TypeError`.
  unfoldable pub sign : PrivateKey → String → Option String
  sign (rsa_key k) message = some (c.rsa_sign k message)
  sign (other_key k) message = none

  -- The constructor.
  unfoldable pub new_interceptor : PrivateKey → Key → GatewayAuthClientInterceptor
  new_interceptor private_key model_id = record {
    private_key = private_key;
    model_id = model_id;
    pubkey_b64 = c.b64encode (c.public_bytes private_key);
  }

  -- The entries for a signature.
  unfoldable pub auth_entries :
      GatewayAuthClientInterceptor → String → Option String → Option Metadata
  auth_entries i payload none = none
  auth_entries i payload (some signature) = some (
      ("x-gateway-auth-message", ascii (c.b64encode payload))
      ∷ ("x-gateway-auth-signature", ascii (c.b64encode signature))
      ∷ ("x-gateway-auth-pubkey", ascii i.pubkey_b64)
      ∷ [])

  -- `_build_auth_metadata`; the number is `int(time.time())`.
  unfoldable pub build_auth_metadata : GatewayAuthClientInterceptor → ℕ → Option Metadata
  unfolding sign auth_entries
  build_auth_metadata i now =
      let payload = c.dumps i.model_id now in auth_entries i payload (sign i.private_key payload)

  unfoldable pub with_entries : Option Metadata → ClientCallDetails → Option ClientCallDetails
  with_entries none d = none
  with_entries (some md) d = some (record d { metadata = some (entries d.metadata ++ md) })

  -- `_enrich_metadata`
  unfoldable pub enrich_metadata :
      GatewayAuthClientInterceptor → ℕ → ClientCallDetails → Option ClientCallDetails
  unfolding build_auth_metadata with_entries
  enrich_metadata i now d = with_entries (build_auth_metadata i now) d

  module _ {Request Call : Type 0} (continuation : ClientCallDetails → Request → Call) where
    unfoldable pub continue_with : Option ClientCallDetails → Request → Option Call
    continue_with none request = none
    continue_with (some d) request = some (continuation d request)

    unfoldable pub intercept_unary_unary :
        GatewayAuthClientInterceptor → ℕ → ClientCallDetails → Request → Option Call
    unfolding continue_with enrich_metadata
    intercept_unary_unary i now d request = continue_with (enrich_metadata i now d) request

    unfoldable pub intercept_unary_stream :
        GatewayAuthClientInterceptor → ℕ → ClientCallDetails → Request → Option Call
    unfolding continue_with enrich_metadata
    intercept_unary_stream i now d request = continue_with (enrich_metadata i now d) request
