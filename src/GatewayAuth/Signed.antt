-- ===== src/GatewayAuth/Signed.antt =====
-- That a server can check the calls that security/gateway_auth_interceptor.py has signed.
use model_runner_client.Base.{
  ℕ, ◌≡◌, refl, Bool, true, Option, none, some, [], ◌∷◌, ◌++◌, String, or_else, arith,
  if◌then◌else◌,
}
use model_runner_client.Base.Eq.{◌==◌, string_equality}
use model_runner_client.Runner.{Key}
use model_runner_client.Credentials.{PrivateKey, rsa_key, GatewayCredentials, load_ok, Os}
use model_runner_client.Credentials.Gateway.{from_files, from_files-load_ok}
use model_runner_client.Auth.Headers.{MdValue, ascii, Metadata}
use model_runner_client.GatewayAuth.{
  Crypto, GatewayAuthClientInterceptor, ClientCallDetails, entries, sign, new_interceptor,
  auth_entries, build_auth_metadata, with_entries, enrich_metadata, continue_with,
  intercept_unary_unary, intercept_unary_stream,
}

-- The value of the last entry with a key, as `dict(metadata)` keeps it.
abbrev pub last_entry : String → Metadata → Option MdValue
last_entry k [] = none
last_entry k ((j, v) ∷ md) = or_else (last_entry k md) (if k == j then some v else none)

last_entry-append :
    (k : String) (xs ys : Metadata)
    → last_entry k (xs ++ ys) ≡ or_else (last_entry k ys) (last_entry k xs)
last_entry-append k [] ys = ground arith
last_entry-append k ((j, v) ∷ xs) ys = ground (arith, last_entry-append k xs ys)

-- What the server uses to check a call.
pub record Server : Type 0 where
  pub b64decode : String → Option String
  pub verify : String → String → String → Bool

module _ (c : Crypto) (server : Server) where
  -- The documented behaviour of the libraries of both sides: decoding undoes encoding, and the public
  -- key of a key accepts what the key has signed.
  abbrev pub Decodes : Type 0
  Decodes = (s : String) → server.b64decode (c.b64encode s) ≡ some s

  abbrev pub Verifies : Type 0
  Verifies = (k s : String) → server.verify (c.public_bytes (rsa_key k)) s (c.rsa_sign k s) ≡ true

  -- The last entries decode to the payload for the model and the time, to the public key, and to a
  -- signature of the payload by that key.
  pub record IsAuthenticated (key : PrivateKey) (model_id : Key) (now : ℕ) (md : Metadata)
      : Type 0 where
    pub message : String
    pub signature : String
    pub pubkey : String
    pub signature_bytes : String
    pub has_message : last_entry "x-gateway-auth-message" md ≡ some (ascii message)
    pub has_signature : last_entry "x-gateway-auth-signature" md ≡ some (ascii signature)
    pub has_pubkey : last_entry "x-gateway-auth-pubkey" md ≡ some (ascii pubkey)
    pub message_decodes : server.b64decode message ≡ some (c.dumps model_id now)
    pub signature_decodes : server.b64decode signature ≡ some signature_bytes
    pub pubkey_decodes : server.b64decode pubkey ≡ some (c.public_bytes key)
    pub verifies : server.verify (c.public_bytes key) (c.dumps model_id now) signature_bytes ≡ true

  abbrev token : GatewayAuthClientInterceptor → String → String → Metadata
  token i payload signature =
      ("x-gateway-auth-message", ascii (c.b64encode payload))
      ∷ ("x-gateway-auth-signature", ascii (c.b64encode signature))
      ∷ ("x-gateway-auth-pubkey", ascii i.pubkey_b64)
      ∷ []

  append-IsAuthenticated :
      Decodes
      → Verifies
      → (k : String) (model_id : Key) (now : ℕ) (md : Metadata)
      → let payload = c.dumps model_id now in
        IsAuthenticated
          (rsa_key k)
          model_id
          now
          (md ++ token (new_interceptor c (rsa_key k) model_id) payload (c.rsa_sign k payload))
  unfolding new_interceptor
  append-IsAuthenticated d v k model_id now md =
      let payload = c.dumps model_id now in
      let signature = c.rsa_sign k payload in
      let i = new_interceptor c (rsa_key k) model_id in
      record {
        message = c.b64encode payload;
        signature = c.b64encode signature;
        pubkey = c.b64encode (c.public_bytes (rsa_key k));
        signature_bytes = signature;
        has_message = last_entry-append _ md (token i payload signature);
        has_signature = last_entry-append _ md (token i payload signature);
        has_pubkey = last_entry-append _ md (token i payload signature);
        message_decodes = d payload;
        signature_decodes = d signature;
        pubkey_decodes = d (c.public_bytes (rsa_key k));
        verifies = v k payload;
      }

  -- The details that a call goes on with: those of the caller, with a token behind its metadata.
  abbrev pub Goes :
      {Request Call : Type 0}
      → (ClientCallDetails → Request → Call)
      → PrivateKey
      → Key
      → ℕ
      → ClientCallDetails
      → Request
      → Option Call
      → Type 0
  Goes continuation key model_id now d request result =
      (added : Metadata) × (let md = entries d.metadata ++ added in
        (result ≡ some (continuation (record d { metadata = some md }) request))
        × IsAuthenticated key model_id now md)

  module _ (decodes : Decodes) (verifies : Verifies) where
    rsa_key-Goes :
        {Request Call : Type 0} (continuation : ClientCallDetails → Request → Call)
        (key : PrivateKey) (k : String) (model_id : Key) (now : ℕ) (d : ClientCallDetails)
        (request : Request)
        → key ≡ rsa_key k
        → Goes continuation key model_id now d request (
            continue_with c continuation
              (enrich_metadata c (new_interceptor c key model_id) now d)
              request)
    unfolding continue_with enrich_metadata build_auth_metadata sign auth_entries with_entries
        new_interceptor
    rsa_key-Goes continuation key k model_id now d request e =
        let payload = c.dumps model_id now in
        rw e (
          token (new_interceptor c (rsa_key k) model_id) payload (c.rsa_sign k payload),
          (refl, append-IsAuthenticated decodes verifies k model_id now (entries d.metadata)),
        )

    -- With loaded gateway credentials no call is refused for its key. Each call of either kind goes on
    -- with the caller's details and metadata and, behind these, entries from which a server that reads
    -- the last entry of a key gets the payload for the model id and the time of this call, the public
    -- key of the loaded key, and a signature that this key accepts. Decoding undoes encoding, and
    -- public keys accept what their keys have signed.
    pub loaded_key_authenticates :
        {P Request Call : Type 0} (os : Os P) (cert_path key_path : P) (g : GatewayCredentials)
        (continuation : ClientCallDetails → Request → Call) (model_id : Key) (now : ℕ)
        (d : ClientCallDetails) (request : Request)
        → from_files os cert_path key_path ≡ load_ok g
        → let i = new_interceptor c g.private_key model_id in
          Goes continuation g.private_key model_id now d request
            (intercept_unary_unary c continuation i now d request)
          × Goes continuation g.private_key model_id now d request
              (intercept_unary_stream c continuation i now d request)
    unfolding intercept_unary_unary intercept_unary_stream
    loaded_key_authenticates os cert_path key_path g continuation model_id now d request e =
        let (pem, k, a, b, rsa) = from_files-load_ok os cert_path key_path g e in
        (
          rsa_key-Goes continuation g.private_key k model_id now d request rsa,
          rsa_key-Goes continuation g.private_key k model_id now d request rsa,
        )
