-- ===== src/Credentials/Secure.antt =====
-- `SecureCredentials.from_directory`, `from_files` and `build_ssl_context` of security/credentials.py.
use model_runner_client.Base.{
  ◌≡◌, ◌↔◌, true, Option, none, some, [], ◌∷◌, if◌then◌else◌, String, arith,
}
use model_runner_client.Credentials.{
  SslContext, cert_required, tls_client_context, set_alpn_protocols, set_check_hostname,
  set_verify_mode, SecureCredentials, ssl_error, setting_error, Loading, load_ok, load_fails,
  and_then, Os, read_file,
}

-- The settings of a context that trusts `ca` alone, and shows `cert` with `key`.
abbrev pub verifying : String → String → String → SslContext
verifying ca cert key = record {
  alpn_protocols = "h2" ∷ [];
  verify_mode = cert_required;
  check_hostname = true;
  ca = some ca;
  chain = some (cert, key);
}

module _ {P : Type 0} (os : Os P) where
  -- `ctx.load_verify_locations`
  unfoldable pub load_verify_locations : P → SslContext → Loading SslContext
  unfolding and_then
  load_verify_locations path ctx =
      and_then (read_file os path) (λ b.
        if os.accepts_ca b then load_ok (record ctx { ca = some b }) else load_fails ssl_error)

  -- `ctx.load_cert_chain`
  unfoldable pub load_cert_chain : P → P → SslContext → Loading SslContext
  unfolding and_then
  load_cert_chain cert_path key_path ctx = and_then (read_file os cert_path) (λ b.
      and_then (read_file os key_path) (λ k.
        if os.accepts_chain b k
        then load_ok (record ctx { chain = some (b, k) })
        else load_fails ssl_error))

  unfoldable pub set_modes : Option SslContext → Loading SslContext
  set_modes none = load_fails setting_error
  set_modes (some ctx) = load_ok (set_check_hostname true ctx)

  unfoldable pub build_ssl_context : P → P → P → Loading SslContext
  unfolding and_then set_modes load_verify_locations load_cert_chain
  build_ssl_context ca_path cert_path key_path =
      let ctx = set_alpn_protocols ("h2" ∷ []) tls_client_context in
      and_then (set_modes (set_verify_mode cert_required ctx))
        (λ c. and_then (load_verify_locations ca_path c) (load_cert_chain cert_path key_path))

  unfoldable pub from_files : P → P → P → Loading SecureCredentials
  unfolding and_then build_ssl_context
  from_files ca_path cert_path key_path = and_then (read_file os ca_path) (λ ca.
      and_then (read_file os cert_path) (λ cert. and_then (read_file os key_path) (λ key.
        and_then (build_ssl_context ca_path cert_path key_path) (λ ctx.
          load_ok
            (record { ca_bytes = ca; cert_bytes = cert; key_bytes = key; tls_ctx = some ctx })))))

  unfoldable pub from_directory : P → Loading SecureCredentials
  unfolding from_files
  from_directory path =
      from_files (os.join path "ca.crt") (os.join path "tls.crt") (os.join path "tls.key")

module _ {P : Type 0} (os : Os P) where
  -- The credentials hold the content of three files, and the context of the TLS probe is made of the
  -- same three and checks the server.
  abbrev pub IsLoaded : P → P → P → SecureCredentials → Type 0
  IsLoaded ca_path cert_path key_path c =
      (os.read_bytes ca_path ≡ some c.ca_bytes)
      × (os.read_bytes cert_path ≡ some c.cert_bytes)
      × (os.read_bytes key_path ≡ some c.key_bytes)
      × (os.accepts_ca c.ca_bytes ≡ true)
      × (os.accepts_chain c.cert_bytes c.key_bytes ≡ true)
      × (c.tls_ctx ≡ some (verifying c.ca_bytes c.cert_bytes c.key_bytes))

  from_files_lem :
      (ca_path cert_path key_path : P) (c : SecureCredentials)
      → (from_files os ca_path cert_path key_path ≡ load_ok c)
        ↔ IsLoaded ca_path cert_path key_path c
  unfolding from_files and_then build_ssl_context set_modes load_verify_locations load_cert_chain
  from_files_lem ca_path cert_path key_path c = ground arith

  -- The credentials of a directory are those of its three files: `from_directory` succeeds exactly if
  -- the files can be read and `ssl` accepts them, and then the key and the chain that the channels
  -- show are those that the TLS probe shows, and the probe requires a certificate that the file
  -- ca.crt vouches for, and checks the host name. All reads of a file give the same content.
  pub from_directory_lem :
      (path : P) (c : SecureCredentials)
      → (from_directory os path ≡ load_ok c)
        ↔ IsLoaded (os.join path "ca.crt") (os.join path "tls.crt") (os.join path "tls.key") c
  unfolding from_directory
  from_directory_lem path = from_files_lem _ _ _
