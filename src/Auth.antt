-- ===== src/Auth.antt =====
-- model_runner_client/security/wallet_gelegation.py: the check that a model node was authorised by the
-- wallet of its cruncher. Decoders and the signature scheme are parameters. Auth/Headers is the
-- interceptor that applies the check to the answer of each call.
pub mod Crashes
pub mod Delegation
pub mod Headers
pub mod Interceptor
use model_runner_client.Base.{
  Bool, true, false, not, ◌||◌, Option, none, some, List, [], ◌∷◌, if◌then◌else◌, String,
}
use model_runner_client.Base.Int.{ℤ, pos, is_zero}
use model_runner_client.Base.Eq.{◌==◌, string_equality, option_equality}
use model_runner_client.Dict
use model_runner_client.Dict.{Dict}

-- A value in a JSON object. `other` are numbers with a fraction, arrays and objects.
pub data JsonValue (O : Type 0) : Type 0 where
  null : JsonValue O
  boolean : Bool → JsonValue O
  number : ℤ → JsonValue O
  string : String → JsonValue O
  other : O → JsonValue O

-- What `json.loads` gives: an exception, a value that is no object, or an object.
pub data Loaded (O : Type 0) : Type 0 where
  malformed : Loaded O
  not_object : Loaded O
  object : Dict String (JsonValue O) → Loaded O

-- The library functions that the check calls; `none` is an exception. Bytes are texts of characters
-- below 256, and an `Ed25519PublicKey` is given by its bytes. `verify` takes the key, the signature and
-- the data, and is `false` for an exception. `truthy` is the truth value of a JSON value of the last
-- kind.
pub record Codec (O : Type 0) : Type 0 where
  pub b64decode : String → Option String
  pub b58decode : String → Option String
  pub from_public_bytes : String → Option String
  pub verify : String → String → String → Bool
  pub decode_utf8 : String → Option String
  pub loads : String → Loaded O
  pub int_of : JsonValue O → Option ℤ
  pub truthy : O → Bool
  pub lower : String → String

-- The reasons of an `AuthError`.
pub data Refusal : Type 0 where
  invalid_encoding wallet_mismatch invalid_signature bad_json missing_cert_pub bad_cert_pub
        key_mismatch model_mismatch hotkey_mismatch missing_metadata not_strings :
      Refusal

pub record DelegationInfo (O : Type 0) : Type 0 where
  pub message_bytes : String
  pub payload : Dict String (JsonValue O)
  pub wallet_pub_bytes : String
  pub cert_pub_bytes : String
  pub wallet_pub_b58 : String
  pub model_id : Option (JsonValue O)
  pub expires_at : Option ℤ

-- What the check comes to. `crashes` is an exception that is no `AuthError`.
pub data Verdict (O : Type 0) : Type 0 where
  verified : DelegationInfo O → Verdict O
  refused : Refusal → Verdict O
  crashes : Verdict O

-- What a runner expects of its model node.
pub record Expected : Type 0 where
  pub wallet_pub_b58 : Option String
  pub hotkey : Option String
  pub model_id : Option String
  pub tls_pub : String

-- `value == expected` for what `payload.get` gave.
abbrev pub json_is : {O : Type 0} → Option (JsonValue O) → Option String → Bool
json_is none none = true
json_is (some JsonValue.null) none = true
json_is (some (JsonValue.string s)) (some t) = s == t
json_is _ _ = false

module _ {O : Type 0} (c : Codec O) where
  -- The argument order is that of the source: the wallet, the message, the signature.
  unfoldable pub wallet_verify : String → String → String → Bool
  wallet_verify wallet_pub_bytes message_bytes signature =
      elim (c.from_public_bytes wallet_pub_bytes) [
        | none ↦ false
        | some key ↦ c.verify key signature message_bytes
      ]

  unfoldable pub decode_signed_message : String → Loaded O
  decode_signed_message message_bytes = elim (c.decode_utf8 message_bytes) [
    | none ↦ malformed
    | some text ↦ c.loads text
  ]

  -- The truth value of what `payload.get` gave.
  abbrev pub json_truthy : Option (JsonValue O) → Bool
  json_truthy none = false
  json_truthy (some JsonValue.null) = false
  json_truthy (some (JsonValue.boolean b)) = b
  json_truthy (some (JsonValue.number n)) = not (is_zero n)
  json_truthy (some (JsonValue.string s)) = not (s == "")
  json_truthy (some (JsonValue.other o)) = c.truthy o

  -- `base64.b64decode(cert_pub_b64.encode("ascii"))`: only texts have `encode`.
  abbrev pub decode_cert : Option (JsonValue O) → Option String
  decode_cert (some (JsonValue.string s)) = c.b64decode s
  decode_cert _ = none

  -- `int(expires_raw) if expires_raw is not None else None`; the outer `none` is an exception.
  abbrev pub decode_expiry : Option (JsonValue O) → Option (Option ℤ)
  decode_expiry none = some none
  decode_expiry (some JsonValue.null) = some none
  decode_expiry (some v) = elim (c.int_of v) [ none ↦ none | some n ↦ some (some n) ]

  -- `raise AuthError` unless the condition holds.
  unfoldable pub require : Bool → Refusal → Verdict O → Verdict O
  require true why k = k
  require false why k = refused why

  -- The `try` around a decoder.
  unfoldable pub decoded : Option String → Refusal → (String → Verdict O) → Verdict O
  decoded none why k = refused why
  decoded (some s) why k = k s

  unfoldable pub loaded : Loaded O → (Dict String (JsonValue O) → Verdict O) → Verdict O
  loaded malformed k = refused bad_json
  loaded not_object k = crashes
  loaded (object payload) k = k payload

  -- The construction of the result.
  unfoldable pub conclude : Option (Option ℤ) → (Option ℤ → DelegationInfo O) → Verdict O
  conclude none k = crashes
  conclude (some expires) k = verified (k expires)

  -- Steps 4 and 5: the payload.
  unfoldable pub check_payload :
      Expected → String → String → String → Dict String (JsonValue O) → Verdict O
  check_payload x wallet_pub_b58 message_bytes wallet_pub_bytes payload =
      let cert_pub = Dict.get "cert_pub" payload in
      let model_id = Dict.get "model_id" payload in
      require (json_truthy cert_pub) missing_cert_pub (
        decoded (decode_cert cert_pub) bad_cert_pub (λ cert_pub_bytes.
          require (x.tls_pub == cert_pub_bytes) key_mismatch (
            require (json_is model_id x.model_id) model_mismatch (
              require (json_is (Dict.get "hotkey" payload) x.hotkey) hotkey_mismatch (
                conclude (decode_expiry (Dict.get "expires_at" payload)) (λ expires. record {
                  message_bytes = message_bytes;
                  payload = payload;
                  wallet_pub_bytes = wallet_pub_bytes;
                  cert_pub_bytes = cert_pub_bytes;
                  wallet_pub_b58 = wallet_pub_b58;
                  model_id = model_id;
                  expires_at = expires;
                }))))))

  -- `message_b64`, `signature_b64` and `wallet_pub_b58` are the arguments of the source.
  unfoldable pub verify_wallet_delegation : Expected → String → String → String → Verdict O
  unfolding wallet_verify decode_signed_message
  verify_wallet_delegation x message_b64 signature_b64 wallet_pub_b58 =
      decoded (c.b64decode message_b64) invalid_encoding (λ message_bytes.
        decoded (c.b64decode signature_b64) invalid_encoding (λ signature.
          decoded (c.b58decode wallet_pub_b58) invalid_encoding (λ wallet_pub_bytes.
            require (some wallet_pub_b58 == x.wallet_pub_b58) wallet_mismatch (
              require (wallet_verify wallet_pub_bytes message_bytes signature) invalid_signature (
                loaded (decode_signed_message message_bytes)
                  (check_payload x wallet_pub_b58 message_bytes wallet_pub_bytes))))))
