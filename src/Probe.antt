-- ===== src/Probe.antt =====
-- model_runner_client/security/tls_peer_key.py: the TLS connection that a runner opens to learn the key
-- of its model node before gRPC connects. What the connection and `cryptography` do is given.
pub mod Key
use Prim.Native.String.{◌++◌}
use model_runner_client.Base.{Bool, true, false, Option, none, some, [], ◌∷◌, if◌then◌else◌, String}
use model_runner_client.Base.Eq.{◌==◌, string_equality}
use model_runner_client.Credentials.{
  SslContext, VerifyMode, cert_none, tls_client_context, set_alpn_protocols, set_check_hostname,
  set_verify_mode,
}
use model_runner_client.Runner.{
  PeerTlsRsaKey, Exception, tls_probe_error, timeout_error, value_error, other_error,
}
use model_runner_client.Runner.Init.{Opens, Reply, probed, tls_answer, raised}

-- The exceptions of the connection and of the first read. `ssl.CertificateError` is another name of
-- `SSLCertVerificationError`, `SSLError` is an `OSError`, and so is the `TimeoutError` of the read.
pub data SocketException : Type 0 where
  verification_failed : String → String → SocketException
  ssl_error : String → SocketException
  os_error : String → SocketException
  unexpected : String → SocketException

-- `_fmt_ssl_error`
abbrev pub fmt_ssl_error : SocketException → String
fmt_ssl_error (verification_failed code msg) =
    "certificate verification failed (code=" ++ code ++ " msg=" ++ msg ++ ")"
fmt_ssl_error (ssl_error e) = "SSL error: " ++ e
fmt_ssl_error (os_error e) = e
fmt_ssl_error (unexpected e) = e

-- The reasons of a `TlsProbeError`.
pub data ProbeFailure : Type 0 where
  closed_after_handshake : ProbeFailure
  handshake_failed : String → ProbeFailure
  connect_failed : String → ProbeFailure
  no_ssl_object : ProbeFailure
  no_certificate : ProbeFailure
  key_not_rsa : ProbeFailure

-- How a probe ends: `out_of_time` is the `TimeoutError` of the wait around it.
pub data ProbeEnd : Type 0 where
  found : PeerTlsRsaKey → ProbeEnd
  fails : ProbeFailure → ProbeEnd
  out_of_time : ProbeEnd
  crashes : Exception → ProbeEnd

-- The end of `reader.read(1)`; `cut_off` is the wait around the probe that runs out.
pub data ReadEnd : Type 0 where
  received : String → ReadEnd
  read_raises : SocketException → ReadEnd
  cut_off : ReadEnd

-- A connection: the read of the first byte, and the object of the TLS layer, if there is one, by the
-- certificate that it returns.
pub record Session : Type 0 where
  pub first_read : ReadEnd
  pub ssl_object : Option (Option String)

-- The end of `asyncio.open_connection`.
pub data Opening : Type 0 where
  opened : Session → Opening
  open_raises : SocketException → Opening
  open_cut_off : Opening

-- What becomes of the transport of the connection.
pub data Transport : Type 0 where
  no_transport left_open aborted : Transport

pub data PublicKey : Type 0 where
  rsa_public_key : String → PublicKey
  other_public_key : PublicKey

-- The functions of `cryptography` on certificates; `none` is an exception.
pub record X509 (Cert : Type 0) : Type 0 where
  pub load_der : String → Option Cert
  pub public_key : Cert → Option PublicKey
  pub pem_bytes : Cert → String
  pub spki_bytes : String → String

-- The two `except` clauses.
unfoldable pub connect_exception : SocketException → ProbeEnd
connect_exception (verification_failed code msg) =
    fails (handshake_failed (fmt_ssl_error (verification_failed code msg)))
connect_exception (ssl_error e) = fails (handshake_failed (fmt_ssl_error (ssl_error e)))
connect_exception (os_error e) = fails (connect_failed e)
connect_exception (unexpected e) = crashes other_error

-- The result of the probe for `_connect_secure_channels`, as the reply that `init` gets.
unfoldable pub probe_reply : ProbeEnd → Opens → Reply
probe_reply (found peer) opens = probed peer opens
probe_reply (fails why) opens = raised tls_probe_error
probe_reply out_of_time opens = raised timeout_error
probe_reply (crashes e) opens = raised e

unfoldable pub tls_reply : ProbeEnd → Reply
tls_reply (found peer) = tls_answer true
tls_reply (fails why) = tls_answer false
tls_reply out_of_time = tls_answer false
tls_reply (crashes e) = raised e

module _ {Cert : Type 0} (x : X509 Cert) where
  unfoldable pub extract_key : Cert → Option PublicKey → ProbeEnd
  extract_key cert none = crashes other_error
  extract_key cert (some other_public_key) = fails key_not_rsa
  extract_key cert (some (rsa_public_key pub_key)) =
      found (record { leaf_cert_pem = x.pem_bytes cert; spki_der = x.spki_bytes pub_key })

  unfoldable pub read_certificate : Option Cert → ProbeEnd
  unfolding extract_key
  read_certificate none = crashes value_error
  read_certificate (some cert) = extract_key cert (x.public_key cert)

  -- The body of the second `try`.
  unfoldable pub inspect : Option (Option String) → ProbeEnd
  unfolding read_certificate
  inspect none = fails no_ssl_object
  inspect (some none) = fails no_certificate
  inspect (some (some leaf_der)) =
      if leaf_der == "" then fails no_certificate else read_certificate (x.load_der leaf_der)

  -- The wait for the first byte. Its exceptions leave `_connect` before the `finally` is reached.
  unfoldable pub after_read : ReadEnd → Session → Transport × ProbeEnd
  unfolding inspect connect_exception
  after_read (received b) s =
      if b == "" then (left_open, fails closed_after_handshake) else (aborted, inspect s.ssl_object)
  after_read (read_raises e) s = (left_open, connect_exception e)
  after_read cut_off s = (left_open, out_of_time)

  unfoldable pub after_open : Bool → Session → Transport × ProbeEnd
  unfolding after_read inspect
  after_open true s = after_read s.first_read s
  after_open false s = (aborted, inspect s.ssl_object)

  unfoldable pub fetch_peer_rsa_spki_mtls : Bool → Opening → Transport × ProbeEnd
  unfolding after_open connect_exception
  fetch_peer_rsa_spki_mtls check_tls_client_auth (opened s) = after_open check_tls_client_auth s
  fetch_peer_rsa_spki_mtls check_tls_client_auth (open_raises e) =
      (no_transport, connect_exception e)
  fetch_peer_rsa_spki_mtls check_tls_client_auth open_cut_off = (no_transport, out_of_time)

  -- The rest of `is_tls_connection` from the context; `none` is a `ValueError` of its settings. The
  -- connection is made with the context.
  unfoldable pub with_context : Option SslContext → (SslContext → Opening) → Reply
  unfolding tls_reply fetch_peer_rsa_spki_mtls
  with_context none connection = raised value_error
  with_context (some ctx) connection = tls_reply (fetch_peer_rsa_spki_mtls false (connection ctx)).1

  unfoldable pub is_tls_connection : (SslContext → Opening) → Reply
  unfolding with_context
  is_tls_connection connection =
      let ctx = set_alpn_protocols ("h2" ∷ []) tls_client_context in
      with_context (set_verify_mode cert_none (set_check_hostname false ctx)) connection
