-- ===== src/Tests/Security.antt =====
-- Runs of the loading of credentials, of the TLS probe and of the signing interceptor, with sample
-- libraries: a file holds the text of its path, and a certificate is the text of its bytes.
use model_runner_client.Base.{ℕ, ◌≡◌, ◌↔◌, refl, true, false, none, some, String}
use model_runner_client.Base.Eq.{◌==◌, string_equality}
use model_runner_client.Credentials.{
  rsa_key, SslContext, SecureCredentials, GatewayCredentials, load_ok, Os, and_then,
}
use model_runner_client.Credentials.Secure.{verifying, from_directory, from_directory_lem, IsLoaded}
use model_runner_client.Credentials.Gateway.{from_files, from_pem, accept_key}
use model_runner_client.Runner.{PeerTlsRsaKey, usage_error}
use model_runner_client.Runner.Init.{
  probing, checking_tls, main_ready, both_open, waiting, raises, init_resume,
}
use model_runner_client.Runner.Init.Probed.{lenient, probes_decide}
use model_runner_client.Probe.{
  found, received, Session, Opening, opened, left_open, rsa_public_key, X509,
  fetch_peer_rsa_spki_mtls, probe_reply, is_tls_connection,
}
use model_runner_client.Probe.Key.{is_ready, IsProbed, fetch_peer_rsa_spki_mtls_lem}
use model_runner_client.GatewayAuth.{
  Crypto, ClientCallDetails, new_interceptor, intercept_unary_unary, intercept_unary_stream,
}
use model_runner_client.GatewayAuth.Signed.{Server, Goes, loaded_key_authenticates}
use model_runner_client.Tests.Samples.{alpha, secure_alpha, peer}

abbrev os : Os String
os = record {
  join = λ path name. name;
  read_bytes = λ path. some path;
  accepts_ca = λ ca. true;
  accepts_chain = λ cert key. true;
  load_pem_private_key = λ pem. some (rsa_key pem);
}

abbrev directory : SecureCredentials
directory = record {
  ca_bytes = "ca.crt";
  cert_bytes = "tls.crt";
  key_bytes = "tls.key";
  tls_ctx = some (verifying "ca.crt" "tls.crt" "tls.key");
}

from_directory_lem_example :
    (from_directory os "certs" ≡ load_ok directory)
    ↔ IsLoaded os "ca.crt" "tls.crt" "tls.key" directory
from_directory_lem_example = from_directory_lem os "certs" directory

directory_loads : from_directory os "certs" ≡ load_ok directory
directory_loads = from_directory_lem_example.1 (refl, refl, refl, refl, refl, refl)

abbrev x509 : X509 String
x509 = record {
  load_der = λ der. some der;
  public_key = λ cert. some (rsa_public_key "spki");
  pem_bytes = λ cert. "leaf";
  spki_bytes = λ k. k;
}

abbrev session : Session
session = record { first_read = received "x"; ssl_object = some (some "der") }

abbrev refused_session : Session
refused_session = record { first_read = received ""; ssl_object = some (some "der") }

fetch_peer_rsa_spki_mtls_lem_example :
    ((p : PeerTlsRsaKey)
      → ((fetch_peer_rsa_spki_mtls x509 true (opened refused_session)).1 ≡ found p)
        ↔ IsProbed x509 true (opened refused_session) p)
    × (((fetch_peer_rsa_spki_mtls x509 true (opened refused_session)).0 ≡ left_open)
        ↔ ((s : Session) × (opened refused_session ≡ opened s) × (is_ready true s ≡ false)))
fetch_peer_rsa_spki_mtls_lem_example =
    fetch_peer_rsa_spki_mtls_lem x509 true (opened refused_session)

connection_leaks : (fetch_peer_rsa_spki_mtls x509 true (opened refused_session)).0 ≡ left_open
connection_leaks = fetch_peer_rsa_spki_mtls_lem_example.1.1 (refused_session, refl, refl)

abbrev connection : SslContext → Opening
connection ctx = opened session

probes_decide_example :
    (((init_resume secure_alpha
          (probing 1)
          (probe_reply (fetch_peer_rsa_spki_mtls x509 true (opened session)).1 both_open)).1
        ≡ waiting (main_ready 1))
      ↔ ((p : PeerTlsRsaKey) × IsProbed x509 true (opened session) p))
    × (((init_resume alpha (checking_tls 1) (is_tls_connection x509 connection)).1
          ≡ raises usage_error)
        ↔ ((p : PeerTlsRsaKey) × IsProbed x509 false (connection lenient) p))
probes_decide_example =
    probes_decide x509 secure_alpha alpha 1 1 (opened session) connection refl refl

probe_succeeds : IsProbed x509 true (opened session) peer
probe_succeeds = (session, refl, refl, ("der", "der", "spki", refl, refl, refl, refl, refl))

abbrev crypto : Crypto
crypto = record {
  rsa_sign = λ k s. s;
  public_bytes = λ k. "pub";
  b64encode = λ s. s;
  dumps = λ m t. "payload";
}

abbrev server : Server
server = record { b64decode = λ s. some s; verify = λ k s t. s == t }

abbrev details : ClientCallDetails
details = record {
  method = "/call";
  timeout = none;
  metadata = none;
  credentials = none;
  wait_for_ready = none;
}

abbrev gateway : GatewayCredentials
gateway = record { private_key = rsa_key "key" }

abbrev continuation : ClientCallDetails → ℕ → ClientCallDetails
continuation d n = d

loaded_key_authenticates_example :
    let i = new_interceptor crypto (rsa_key "key") (some "m1") in
    Goes crypto server continuation
      (rsa_key "key")
      (some "m1")
      7
      details
      0
      (intercept_unary_unary crypto continuation i 7 details 0)
    × Goes crypto server continuation
        (rsa_key "key")
        (some "m1")
        7
        details
        0
        (intercept_unary_stream crypto continuation i 7 details 0)
unfolding from_files and_then from_pem accept_key
loaded_key_authenticates_example =
    loaded_key_authenticates crypto server (λ s. refl)
      (λ k s. (string_equality.test_iff s s).1 refl) os "cert" "key" gateway continuation
      (some "m1") 7 details 0 refl
