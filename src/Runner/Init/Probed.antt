-- ===== src/Runner/Init/Probed.antt =====
-- What `ModelRunner.init` concludes from the two probes of security/tls_peer_key.py.
use model_runner_client.Base.{
  ℕ, ◌≡◌, ◌≢◌, ◌↔◌, refl, Bool, true, false, Option, none, some, [], ◌∷◌, String, arith, Bool-cases,
  is_some, inl, inr,
}
use model_runner_client.Base.Eq.{◌==◌, string_equality}
use model_runner_client.Credentials.{SslContext, cert_none, SecureCredentials}
use model_runner_client.Runner.{
  ModelRunner, PeerTlsRsaKey, Exception, usage_error, timeout_error, rpc_error, Infos,
}
use model_runner_client.Runner.Init.{
  checking_tls, probing, main_ready, both_open, InitState, waiting, raises, retry, after_probe,
  open_channels, init_resume, except, connection_failed,
}
use model_runner_client.Probe.{
  SocketException, verification_failed, ssl_error, os_error, unexpected, ProbeEnd, found, fails,
  out_of_time, crashes, ReadEnd, received, read_raises, cut_off, Session, Opening, opened,
  open_raises, open_cut_off, PublicKey, rsa_public_key, other_public_key, X509, connect_exception,
  extract_key, read_certificate, inspect, after_read, after_open, fetch_peer_rsa_spki_mtls,
  probe_reply, tls_reply, with_context, is_tls_connection,
}
use model_runner_client.Probe.Key.{IsProbed, fetch_peer_rsa_spki_mtls_lem}

-- A context that takes any certificate.
abbrev pub lenient : SslContext
lenient = record {
  alpn_protocols = "h2" ∷ [];
  verify_mode = cert_none;
  check_hostname = false;
  ca = none;
  chain = none;
}

abbrev is_usage : ProbeEnd → Bool
is_usage (crashes usage_error) = true
is_usage _ = false

connect_exception_usage : (e : SocketException) → is_usage (connect_exception e) ≡ false
unfolding connect_exception
connect_exception_usage (verification_failed code msg) = refl
connect_exception_usage (ssl_error t) = refl
connect_exception_usage (os_error t) = refl
connect_exception_usage (unexpected t) = refl

retry_ne_raises : (r : ModelRunner) (a : ℕ) (e : Exception) → (retry r a).1 ≢ raises e
unfolding retry
retry_ne_raises r a e h = ground arith

tls_reply-raises :
    (r : ModelRunner) (a : ℕ) (e : ProbeEnd)
    → is_usage e ≡ false
    → (init_resume r (checking_tls a) (tls_reply e)).1 ≡ raises usage_error
    → (p : PeerTlsRsaKey) × (e ≡ found p)
unfolding init_resume tls_reply
tls_reply-raises r a (found p) u h = (p, refl)
tls_reply-raises r a (fails why) u h = absurd (retry_ne_raises r a usage_error h)
tls_reply-raises r a out_of_time u h = absurd (retry_ne_raises r a usage_error h)
tls_reply-raises r a (crashes usage_error) u h = cc
tls_reply-raises r a (crashes _) u h = cc

abbrev awaits_channel : InitState → Bool
awaits_channel (waiting (main_ready a)) = true
awaits_channel _ = false

except_awaits : (r : ModelRunner) (a : ℕ) (e : Exception) → awaits_channel (except r a e).1 ≡ false
unfolding except connection_failed retry
except_awaits r a rpc_error = ground arith
except_awaits r a _ = ground arith

probe_reply-waits :
    (r : ModelRunner) (a : ℕ) (e : ProbeEnd)
    → (init_resume r (probing a) (probe_reply e both_open)).1 ≡ waiting (main_ready a)
    → (p : PeerTlsRsaKey) × (e ≡ found p)
unfolding init_resume probe_reply
probe_reply-waits r a (found p) h = (p, refl)
probe_reply-waits r a (fails why) h = cc
probe_reply-waits r a out_of_time h = cc (except_awaits r a timeout_error)
probe_reply-waits r a (crashes t) h = cc (except_awaits r a t)

probed_waits :
    (r : ModelRunner) (c : Option SecureCredentials) (infos : Option Infos) (a : ℕ)
    (p : PeerTlsRsaKey)
    → is_some c ≡ true
    → is_some infos ≡ true
    → (after_probe c infos r a p both_open).1 ≡ waiting (main_ready a)
unfolding after_probe open_channels
probed_waits r none infos a p s i = cc
probed_waits r (some c) none a p s i = cc
probed_waits r (some c) (some infos) a p s i = refl

module _ {Cert : Type 0} (x : X509 Cert) where
  extract_key_usage : (cert : Cert) (o : Option PublicKey) → is_usage (extract_key x cert o) ≡ false
  unfolding extract_key
  extract_key_usage cert none = refl
  extract_key_usage cert (some (rsa_public_key k)) = refl
  extract_key_usage cert (some other_public_key) = refl

  read_certificate_usage : (o : Option Cert) → is_usage (read_certificate x o) ≡ false
  unfolding read_certificate
  read_certificate_usage none = refl
  read_certificate_usage (some cert) = extract_key_usage cert (x.public_key cert)

  inspect_usage : (o : Option (Option String)) → is_usage (inspect x o) ≡ false
  unfolding inspect read_certificate
  inspect_usage none = refl
  inspect_usage (some none) = refl
  inspect_usage (some (some der)) = elim (Bool-cases (der == "")) [
    | inl e ↦ rw e refl
    | inr e ↦ rw e (read_certificate_usage (x.load_der der))
  ]

  after_read_usage : (r : ReadEnd) (s : Session) → is_usage (after_read x r s).1 ≡ false
  unfolding after_read
  after_read_usage (received b) s = elim (Bool-cases (b == "")) [
    | inl e ↦ rw e refl
    | inr e ↦ rw e (inspect_usage s.ssl_object)
  ]
  after_read_usage (read_raises e) s = connect_exception_usage e
  after_read_usage cut_off s = refl

  fetch_usage :
      (check : Bool) (o : Opening) → is_usage (fetch_peer_rsa_spki_mtls x check o).1 ≡ false
  unfolding fetch_peer_rsa_spki_mtls after_open
  fetch_usage true (opened s) = after_read_usage s.first_read s
  fetch_usage false (opened s) = inspect_usage s.ssl_object
  fetch_usage check (open_raises e) = connect_exception_usage e
  fetch_usage check open_cut_off = refl

  probing-decides :
      (r : ModelRunner) (a : ℕ) (o : Opening)
      → is_some r.secure_credentials ≡ true
      → is_some r.infos ≡ true
      → ((init_resume r (probing a) (probe_reply (fetch_peer_rsa_spki_mtls x true o).1 both_open)).1
          ≡ waiting (main_ready a))
        ↔ ((p : PeerTlsRsaKey) × IsProbed x true o p)
  unfolding init_resume probe_reply
  probing-decides r a o s i = (
    λ h.
        let (p, e) = probe_reply-waits r a (fetch_peer_rsa_spki_mtls x true o).1 h in
        (p, ((fetch_peer_rsa_spki_mtls_lem x true o).0 p).0 e),
    λ (p, h).
        rw (((fetch_peer_rsa_spki_mtls_lem x true o).0 p).1 h)
          (probed_waits r r.secure_credentials r.infos a p s i),
  )

  checking_tls-decides :
      (r : ModelRunner) (a : ℕ) (connection : SslContext → Opening)
      → ((init_resume r (checking_tls a) (is_tls_connection x connection)).1 ≡ raises usage_error)
        ↔ ((p : PeerTlsRsaKey) × IsProbed x false (connection lenient) p)
  unfolding init_resume is_tls_connection with_context tls_reply
  checking_tls-decides r a connection = (
    λ h.
        let o = connection lenient in
        let e = (fetch_peer_rsa_spki_mtls x false o).1 in
        let (p, f) = tls_reply-raises r a e (fetch_usage false o) h in
        (p, ((fetch_peer_rsa_spki_mtls_lem x false o).0 p).0 f),
    λ (p, h). rw (((fetch_peer_rsa_spki_mtls_lem x false (connection lenient)).0 p).1 h) refl,
  )

  -- A runner with secure credentials and infos goes on from the probe to its channels, where their
  -- creation does not fail, exactly if the probe found an RSA key in the certificate of a server that
  -- stayed connected. A runner that asks whether a server that it could not reach speaks TLS raises
  -- the usage error exactly if a probe that takes any certificate finds an RSA key: a model node in
  -- secure mode with another key counts as unreachable.
  pub probes_decide :
      (r q : ModelRunner) (a b : ℕ) (o : Opening) (connection : SslContext → Opening)
      → is_some r.secure_credentials ≡ true
      → is_some r.infos ≡ true
      → (((init_resume r
              (probing a)
              (probe_reply (fetch_peer_rsa_spki_mtls x true o).1 both_open)).1
            ≡ waiting (main_ready a))
          ↔ ((p : PeerTlsRsaKey) × IsProbed x true o p))
        × (((init_resume q (checking_tls b) (is_tls_connection x connection)).1
              ≡ raises usage_error)
            ↔ ((p : PeerTlsRsaKey) × IsProbed x false (connection lenient) p))
  probes_decide r q a b o connection s i =
      (probing-decides r a o s i, checking_tls-decides q b connection)
