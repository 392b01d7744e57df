-- ===== src/Tests/Auth.antt =====
-- Runs of the delegation check and of the interceptor, with a sample codec: texts decode to themselves,
-- and the only good signature is "sig".
use model_runner_client.Base.{
  ℕ, ◌≡◌, ◌↔◌, refl, true, false, Option, none, some, [], ◌∷◌, String, if◌then◌else◌,
}
use model_runner_client.Base.Eq.{◌==◌, string_equality, option_equality}
use model_runner_client.Dict
use model_runner_client.Auth.{
  JsonValue, Loaded, not_object, object, Codec, DelegationInfo, verified, Expected,
  verify_wallet_delegation, decoded, require, loaded, check_payload, conclude, wallet_verify,
  decode_signed_message,
}
use model_runner_client.Auth.Headers.{ascii, Metadata, arrives, intercept}
use model_runner_client.Auth.Delegation.{IsDelegated, verify_wallet_delegation_lem}
use model_runner_client.Auth.Crashes.{IsCrashCause, verify_wallet_delegation-crashes}
use model_runner_client.Auth.Interceptor.{IsAuthorised, intercept_guards}

abbrev decode : String → Option String
decode s = if s == "" then none else some s

abbrev codec : Loaded ℕ → Codec ℕ
codec l = record {
  b64decode = decode;
  b58decode = decode;
  from_public_bytes = decode;
  verify = λ key signature message. signature == "sig";
  decode_utf8 = decode;
  loads = λ message. l;
  int_of = λ v. none;
  truthy = λ o. true;
  lower = λ s. s;
}

abbrev payload : Dict.Dict String (JsonValue ℕ)
payload =
    ("cert_pub", JsonValue.string "spki")
    ∷ ("model_id", JsonValue.string "m1")
    ∷ ("hotkey", JsonValue.string "hk")
    ∷ []

abbrev expected : Expected
expected = record {
  wallet_pub_b58 = some "wallet";
  hotkey = some "hk";
  model_id = some "m1";
  tls_pub = "spki";
}

abbrev info : DelegationInfo ℕ
info = record {
  message_bytes = "msg";
  payload = payload;
  wallet_pub_bytes = "wallet";
  cert_pub_bytes = "spki";
  wallet_pub_b58 = "wallet";
  model_id = some (JsonValue.string "m1");
  expires_at = none;
}

abbrev metadata : Metadata
metadata =
    ("x-server-auth-message", ascii "msg")
    ∷ ("x-server-auth-signature", ascii "sig")
    ∷ ("x-server-wallet-pubkey", ascii "wallet")
    ∷ []

verify_wallet_delegation_lem_example :
    (verify_wallet_delegation (codec (object payload)) expected "msg" "sig" "wallet"
      ≡ verified info)
    ↔ IsDelegated (codec (object payload)) expected "msg" "sig" "wallet" info
verify_wallet_delegation_lem_example =
    verify_wallet_delegation_lem (codec (object payload)) expected "msg" "sig" "wallet" info

good_delegation :
    verify_wallet_delegation (codec (object payload)) expected "msg" "sig" "wallet" ≡ verified info
unfolding verify_wallet_delegation decoded require loaded wallet_verify decode_signed_message
    check_payload Dict.get conclude
good_delegation = refl

verify_wallet_delegation-crashes_example :
    (message : String) × (signature : String) × (wallet : String) × (key : String) × (decode "msg"
      ≡ some message)
    × (decode "sig" ≡ some signature)
    × (decode "wallet" ≡ some wallet)
    × (expected.wallet_pub_b58 ≡ some "wallet")
    × (decode wallet ≡ some key)
    × ((signature == "sig") ≡ true)
    × IsCrashCause (codec not_object) message
unfolding verify_wallet_delegation decoded require loaded wallet_verify decode_signed_message
verify_wallet_delegation-crashes_example =
    verify_wallet_delegation-crashes (codec not_object) expected "msg" "sig" "wallet" refl

intercept_guards_example :
    (md : Metadata) × (arrives metadata ≡ arrives md)
    × IsAuthorised (codec (object payload)) expected md
unfolding intercept Dict.get Dict.put decoded require loaded wallet_verify decode_signed_message
    check_payload conclude
intercept_guards_example =
    intercept_guards (codec (object payload)) "" expected "/call" (arrives metadata) false refl refl
