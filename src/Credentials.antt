-- ===== src/Credentials.antt =====
-- model_runner_client/security/credentials.py and gateway_credentials.py: the two kinds of credentials
-- that a runner can have, and what their loading needs of the file system, `ssl` and `cryptography`.
-- The loading itself is in the modules below.
pub mod Secure
pub mod Gateway
use model_runner_client.Base.{Bool, true, false, Option, none, some, List, [], ◌∷◌, String}

-- A private key of `cryptography`: an RSA key, or one of another algorithm.
pub data PrivateKey : Type 0 where
  rsa_key : String → PrivateKey
  other_key : String → PrivateKey

-- `isinstance(private_key, rsa.RSAPrivateKey)`
abbrev pub is_rsa : PrivateKey → Bool
is_rsa (rsa_key k) = true
is_rsa (other_key k) = false

pub data VerifyMode : Type 0 where
  cert_none cert_required : VerifyMode

-- `ssl.SSLContext` by its settings; the files that were loaded are kept by their content.
pub record SslContext : Type 0 where
  pub alpn_protocols : List String
  pub verify_mode : VerifyMode
  pub check_hostname : Bool
  pub ca : Option String
  pub chain : Option (String × String)

-- `ssl.SSLContext(ssl.PROTOCOL_TLS_CLIENT)`
abbrev pub tls_client_context : SslContext
tls_client_context = record {
  alpn_protocols = [];
  verify_mode = cert_required;
  check_hostname = true;
  ca = none;
  chain = none;
}

abbrev pub set_alpn_protocols : List String → SslContext → SslContext
set_alpn_protocols ps ctx = record ctx { alpn_protocols = ps }

-- Turning the check of the host name on turns the check of certificates on.
abbrev pub set_check_hostname : Bool → SslContext → SslContext
set_check_hostname false ctx = record ctx { check_hostname = false }
set_check_hostname true ctx = record ctx { check_hostname = true; verify_mode = cert_required }

-- `none` is the `ValueError` for a context that checks host names.
abbrev pub set_verify_mode : VerifyMode → SslContext → Option SslContext
set_verify_mode cert_required ctx = some (record ctx { verify_mode = cert_required })
set_verify_mode cert_none ctx = elim ctx.check_hostname [
  | true ↦ none
  | false ↦ some (record ctx { verify_mode = cert_none })
]

-- `SecureCredentials`. The generated constructor leaves `tls_ctx` without a value.
pub record SecureCredentials : Type 0 where
  pub ca_bytes : String
  pub cert_bytes : String
  pub key_bytes : String
  pub tls_ctx : Option SslContext

pub record GatewayCredentials : Type 0 where
  pub private_key : PrivateKey

-- The exceptions of loading: of the file system, of `ssl`, of the PEM parser, and the `TypeError` for
-- a key that is not RSA.
pub data LoadError : Type 0 where
  file_error ssl_error setting_error bad_pem not_rsa : LoadError

pub data Loading (A : Type 0) : Type 0 where
  load_ok : A → Loading A
  load_fails : LoadError → Loading A

-- The statements after one that may raise.
unfoldable pub and_then : {A B : Type 0} → Loading A → (A → Loading B) → Loading B
and_then (load_ok a) k = k a
and_then (load_fails e) k = load_fails e

-- The libraries that loading calls: paths, files, the checks that `ssl` makes of a CA file and of a
-- chain with its key, and the PEM parser of `cryptography`.
pub record Os (P : Type 0) : Type 0 where
  pub join : P → String → P
  pub read_bytes : P → Option String
  pub accepts_ca : String → Bool
  pub accepts_chain : String → String → Bool
  pub load_pem_private_key : String → Option PrivateKey

abbrev pub content : Option String → Loading String
content none = load_fails file_error
content (some b) = load_ok b

-- `path.read_bytes()`
abbrev pub read_file : {P : Type 0} → Os P → P → Loading String
read_file os p = content (os.read_bytes p)
