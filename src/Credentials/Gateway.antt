-- ===== src/Credentials/Gateway.antt =====
-- `GatewayCredentials.from_files` and `from_pem` of security/gateway_credentials.py.
use model_runner_client.Base.{◌≡◌, refl, Option, none, some, if◌then◌else◌, String, arith}
use model_runner_client.Credentials.{
  PrivateKey, rsa_key, other_key, is_rsa, GatewayCredentials, bad_pem, not_rsa, Loading, load_ok,
  load_fails, and_then, Os, read_file, content,
}

unfoldable pub accept_key : Option PrivateKey → Loading GatewayCredentials
accept_key none = load_fails bad_pem
accept_key (some private_key) =
    if is_rsa private_key
    then load_ok (record { private_key = private_key })
    else load_fails not_rsa

accept_key-load_ok :
    (key : Option PrivateKey) (g : GatewayCredentials)
    → accept_key key ≡ load_ok g
    → (k : String) × (key ≡ some (rsa_key k)) × (g.private_key ≡ rsa_key k)
unfolding accept_key
accept_key-load_ok none g e = ground arith
accept_key-load_ok (some (rsa_key k)) g e = (k, refl, ground arith)
accept_key-load_ok (some (other_key k)) g e = ground arith

module _ {P : Type 0} (os : Os P) where
  unfoldable pub from_pem : String → Loading GatewayCredentials
  unfolding accept_key
  from_pem key_pem = accept_key (os.load_pem_private_key key_pem)

  -- The certificate's path is not used.
  unfoldable pub from_files : P → P → Loading GatewayCredentials
  unfolding and_then
  from_files cert_path key_path = and_then (read_file os key_path) from_pem

  -- The content of the key file, and the RSA key that it holds.
  abbrev pub IsLoadedKey : P → GatewayCredentials → Type 0
  IsLoadedKey key_path g =
      (pem : String) × (k : String) × (os.read_bytes key_path ≡ some pem)
      × (os.load_pem_private_key pem ≡ some (rsa_key k))
      × (g.private_key ≡ rsa_key k)

  read-load_ok :
      (key_path : P) (g : GatewayCredentials) (read : Option String)
      → os.read_bytes key_path ≡ read
      → and_then (content read) from_pem ≡ load_ok g
      → IsLoadedKey key_path g
  unfolding from_pem and_then
  read-load_ok key_path g none h e = ground arith
  read-load_ok key_path g (some pem) h e =
      let (k, a, b) = accept_key-load_ok (os.load_pem_private_key pem) g e in (pem, k, h, a, b)

  -- Loaded credentials hold the RSA key of the key file.
  pub from_files-load_ok :
      (cert_path key_path : P) (g : GatewayCredentials)
      → from_files cert_path key_path ≡ load_ok g
      → IsLoadedKey key_path g
  unfolding from_files
  from_files-load_ok cert_path key_path g e =
      read-load_ok key_path g (os.read_bytes key_path) refl e
