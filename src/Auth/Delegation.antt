-- ===== src/Auth/Delegation.antt =====
-- What `verify_wallet_delegation` of wallet_gelegation.py accepts, and what it means that it does.
use model_runner_client.Base.{
  ◌≡◌, ◌≢◌, refl, sym, subst, Bool, true, false, Option, none, some, String, ◌↔◌,
}
use model_runner_client.Base.Int.{ℤ}
use model_runner_client.Base.Eq.{◌==◌, string_equality, option_equality}
use model_runner_client.Dict
use model_runner_client.Dict.{Dict}
use model_runner_client.Auth.{
  JsonValue, Loaded, malformed, not_object, object, Codec, Refusal, DelegationInfo, Verdict,
  verified, Expected, json_is, json_truthy, decode_cert, decode_expiry, require, decoded, loaded,
  conclude, check_payload, verify_wallet_delegation, wallet_verify, decode_signed_message,
}

-- The wallet signed a payload that names the key of the TLS connection, the model and the hotkey.
-- `message`, `signature` and `wallet` are the decoded arguments.
pub record IsDelegated {O : Type 0} (c : Codec O) (x : Expected)
    (message_b64 signature_b64 wallet_b58 : String) (info : DelegationInfo O) : Type 0 where
  pub signature : String
  pub public_key : String
  pub text : String
  pub message_decodes : c.b64decode message_b64 ≡ some info.message_bytes
  pub signature_decodes : c.b64decode signature_b64 ≡ some signature
  pub wallet_decodes : c.b58decode wallet_b58 ≡ some info.wallet_pub_bytes
  pub wallet_expected : (some wallet_b58 == x.wallet_pub_b58) ≡ true
  pub key_loads : c.from_public_bytes info.wallet_pub_bytes ≡ some public_key
  pub signed : c.verify public_key signature info.message_bytes ≡ true
  pub message_is_text : c.decode_utf8 info.message_bytes ≡ some text
  pub payload_loads : c.loads text ≡ object info.payload
  pub cert_given : json_truthy c (Dict.get "cert_pub" info.payload) ≡ true
  pub cert_decodes : decode_cert c (Dict.get "cert_pub" info.payload) ≡ some info.cert_pub_bytes
  pub key_bound : (x.tls_pub == info.cert_pub_bytes) ≡ true
  pub model_bound : json_is (Dict.get "model_id" info.payload) x.model_id ≡ true
  pub hotkey_bound : json_is (Dict.get "hotkey" info.payload) x.hotkey ≡ true
  pub expiry : decode_expiry c (Dict.get "expires_at" info.payload) ≡ some info.expires_at
  pub same_wallet : info.wallet_pub_b58 ≡ wallet_b58
  pub same_model : info.model_id ≡ Dict.get "model_id" info.payload

elim-some :
    {A B : Type 0} (o : Option A) (y z : B) (f : A → B)
    → y ≢ z
    → ((elim o [ none ↦ y | some x ↦ f x ]) ≡ z) ↔ ((x : A) × (o ≡ some x) × (f x ≡ z))
elim-some none y z f n = (λ e. absurd (n e), λ (x, p, q). cc)
elim-some (some w) y z f n = (λ e. (w, refl, e), λ (x, p, q). cc)

module _ {O : Type 0} (c : Codec O) where
  pub wallet_verify_lem :
      (wallet message signature : String)
      → (wallet_verify c wallet message signature ≡ true) ↔ (
          (key : String) × (c.from_public_bytes wallet ≡ some key)
          × (c.verify key signature message ≡ true))
  unfolding wallet_verify
  wallet_verify_lem wallet message signature =
      elim-some (c.from_public_bytes wallet) false true (λ key. c.verify key signature message)
        (λ e. cc)

  pub decode_signed_message_lem :
      (message : String) (l : Loaded O)
      → malformed ≢ l
      → (decode_signed_message c message ≡ l)
        ↔ ((text : String) × (c.decode_utf8 message ≡ some text) × (c.loads text ≡ l))
  unfolding decode_signed_message
  decode_signed_message_lem message l n = elim-some (c.decode_utf8 message) malformed l c.loads n

  require-verified :
      (b : Bool) (why : Refusal) (k : Verdict O) (info : DelegationInfo O)
      → require c b why k ≡ verified info
      → (b ≡ true) × (k ≡ verified info)
  unfolding require
  require-verified true why k info e = (refl, e)
  require-verified false why k info e = cc

  decoded-verified :
      (o : Option String) (why : Refusal) (k : String → Verdict O) (info : DelegationInfo O)
      → decoded c o why k ≡ verified info
      → (s : String) × (o ≡ some s) × (k s ≡ verified info)
  unfolding decoded
  decoded-verified none why k info e = cc
  decoded-verified (some s) why k info e = (s, refl, e)

  loaded-verified :
      (l : Loaded O) (k : Dict String (JsonValue O) → Verdict O) (info : DelegationInfo O)
      → loaded c l k ≡ verified info
      → (d : Dict String (JsonValue O)) × (l ≡ object d) × (k d ≡ verified info)
  unfolding loaded
  loaded-verified malformed k info e = cc
  loaded-verified not_object k info e = cc
  loaded-verified (object d) k info e = (d, refl, e)

  conclude-verified :
      (o : Option (Option ℤ)) (k : Option ℤ → DelegationInfo O) (info : DelegationInfo O)
      → conclude c o k ≡ verified info
      → (n : Option ℤ) × (o ≡ some n) × (k n ≡ info)
  unfolding conclude
  conclude-verified none k info e = cc
  conclude-verified (some n) k info e = (n, refl, cc)

  verified-IsDelegated :
      (x : Expected) (message_b64 signature_b64 wallet_b58 : String) (info : DelegationInfo O)
      → verify_wallet_delegation c x message_b64 signature_b64 wallet_b58 ≡ verified info
      → IsDelegated c x message_b64 signature_b64 wallet_b58 info
  unfolding verify_wallet_delegation check_payload
  verified-IsDelegated x message_b64 signature_b64 wallet_b58 info e =
      let (m, m_eq, e1) = decoded-verified _ _ _ info e in
      let (s, s_eq, e2) = decoded-verified _ _ _ info e1 in
      let (w, w_eq, e3) = decoded-verified _ _ _ info e2 in
      let (a, e4) = require-verified _ _ _ info e3 in
      let (b, e5) = require-verified _ _ _ info e4 in
      let (d, d_eq, e6) = loaded-verified _ _ info e5 in
      let (key, key_eq, signed) = (wallet_verify_lem w m s).0 b in
      let (text, text_eq, loads) = (decode_signed_message_lem m (object d) (λ p. cc)).0 d_eq in
      let (g, e7) = require-verified _ _ _ info e6 in
      let (p, p_eq, e8) = decoded-verified _ _ _ info e7 in
      let (h, e9) = require-verified _ _ _ info e8 in
      let (i, e10) = require-verified _ _ _ info e9 in
      let (j, e11) = require-verified _ _ _ info e10 in
      let (n, n_eq, q) = conclude-verified _ _ info e11 in
      subst (IsDelegated c x message_b64 signature_b64 wallet_b58) q (record {
        signature = s;
        public_key = key;
        text = text;
        message_decodes = m_eq;
        signature_decodes = s_eq;
        wallet_decodes = w_eq;
        wallet_expected = a;
        key_loads = key_eq;
        signed = signed;
        message_is_text = text_eq;
        payload_loads = loads;
        cert_given = g;
        cert_decodes = p_eq;
        key_bound = h;
        model_bound = i;
        hotkey_bound = j;
        expiry = n_eq;
        same_wallet = refl;
        same_model = refl;
      })

  IsDelegated-verified :
      (x : Expected) (message_b64 signature_b64 wallet_b58 : String) (info : DelegationInfo O)
      → IsDelegated c x message_b64 signature_b64 wallet_b58 info
      → verify_wallet_delegation c x message_b64 signature_b64 wallet_b58 ≡ verified info
  unfolding verify_wallet_delegation check_payload require decoded loaded conclude
  IsDelegated-verified x message_b64 signature_b64 wallet_b58 info d =
      let signed : wallet_verify c info.wallet_pub_bytes info.message_bytes d.signature ≡ true =
        (wallet_verify_lem _ _ _).1 (d.public_key, d.key_loads, d.signed) in
      let loads : decode_signed_message c info.message_bytes ≡ object info.payload =
        (decode_signed_message_lem info.message_bytes (object info.payload) (λ p. cc)).1
          (d.text, d.message_is_text, d.payload_loads) in
      simp
        (
          d.message_decodes, d.signature_decodes, d.wallet_decodes, d.wallet_expected, signed,
          loads, d.cert_given, d.cert_decodes, d.key_bound, d.model_bound, d.hotkey_bound, d.expiry,
        )
        (λ i.
          verified
            (record info { wallet_pub_b58 = sym d.same_wallet i; model_id = sym d.same_model i }))

  -- The check succeeds exactly for the delegations, and gives the description of the delegation.
  pub verify_wallet_delegation_lem :
      (x : Expected) (message_b64 signature_b64 wallet_b58 : String) (info : DelegationInfo O)
      → (verify_wallet_delegation c x message_b64 signature_b64 wallet_b58 ≡ verified info)
        ↔ IsDelegated c x message_b64 signature_b64 wallet_b58 info
  verify_wallet_delegation_lem x message_b64 signature_b64 wallet_b58 info = (
    verified-IsDelegated x message_b64 signature_b64 wallet_b58 info,
    IsDelegated-verified x message_b64 signature_b64 wallet_b58 info,
  )
