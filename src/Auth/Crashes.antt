-- ===== src/Auth/Crashes.antt =====
-- When an exception that is no `AuthError` leaves `verify_wallet_delegation` of wallet_gelegation.py.
use model_runner_client.Base.{
  ◌≡◌, refl, Bool, true, false, Option, none, some, String, inl, inr, ◌⊎◌,
}
use model_runner_client.Base.Int.{ℤ}
use model_runner_client.Base.Eq.{string_equality, option_equality}
use model_runner_client.Base.Eq.{option_beq_iff}
use model_runner_client.Base.{sym}
use model_runner_client.Auth.Delegation.{wallet_verify_lem, decode_signed_message_lem}
use model_runner_client.Dict
use model_runner_client.Dict.{Dict}
use model_runner_client.Auth.{
  JsonValue, Loaded, malformed, not_object, object, Codec, Refusal, DelegationInfo, Verdict,
  crashes, Expected, decode_expiry, require, decoded, loaded, conclude, check_payload,
  verify_wallet_delegation, decode_signed_message,
}

module _ {O : Type 0} (c : Codec O) where
  require-crashes :
      (b : Bool) (why : Refusal) (k : Verdict O)
      → require c b why k ≡ crashes
      → (b ≡ true) × (k ≡ crashes)
  unfolding require
  require-crashes true why k e = (refl, e)
  require-crashes false why k e = cc

  decoded-crashes :
      (o : Option String) (why : Refusal) (k : String → Verdict O)
      → decoded c o why k ≡ crashes
      → (s : String) × (o ≡ some s) × (k s ≡ crashes)
  unfolding decoded
  decoded-crashes none why k e = cc
  decoded-crashes (some s) why k e = (s, refl, e)

  conclude-crashes :
      (o : Option (Option ℤ)) (k : Option ℤ → DelegationInfo O)
      → conclude c o k ≡ crashes
      → o ≡ none
  unfolding conclude
  conclude-crashes none k e = refl
  conclude-crashes (some n) k e = cc

  -- The signed text is JSON but no object, or an object whose expiry is no number.
  abbrev pub IsCrashCause : String → Type 0
  IsCrashCause message =
      (text : String) × (c.decode_utf8 message ≡ some text)
      × ((c.loads text ≡ not_object)
          ⊎ ((d : Dict String (JsonValue O)) × (c.loads text ≡ object d)
              × (decode_expiry c (Dict.get "expires_at" d) ≡ none)))

  loaded-crashes :
      (message : String) (l : Loaded O) (k : Dict String (JsonValue O) → Verdict O)
      → decode_signed_message c message ≡ l
      → loaded c l k ≡ crashes
      → ((d : Dict String (JsonValue O))
          → k d ≡ crashes
          → decode_expiry c (Dict.get "expires_at" d) ≡ none)
      → IsCrashCause message
  unfolding loaded
  loaded-crashes message malformed k l e h = cc
  loaded-crashes message not_object k l e h =
      let (text, x, y) = (decode_signed_message_lem c message not_object (λ p. cc)).0 l in
      (text, x, inl y)
  loaded-crashes message (object d) k l e h =
      let (text, x, y) = (decode_signed_message_lem c message (object d) (λ p. cc)).0 l in
      (text, x, inr (d, y, h d e))

  check_payload-crashes :
      (x : Expected) (wallet_b58 message wallet : String) (d : Dict String (JsonValue O))
      → check_payload c x wallet_b58 message wallet d ≡ crashes
      → decode_expiry c (Dict.get "expires_at" d) ≡ none
  unfolding check_payload
  check_payload-crashes x wallet_b58 message wallet d e =
      let (g, e1) = require-crashes _ _ _ e in
      let (p, p_eq, e2) = decoded-crashes _ _ _ e1 in
      let (h, e3) = require-crashes _ _ _ e2 in
      let (i, e4) = require-crashes _ _ _ e3 in
      let (j, e5) = require-crashes _ _ _ e4 in conclude-crashes _ _ e5

  -- An exception that is no `AuthError` leaves the check only if all three arguments decode, the wallet
  -- is the expected one, and the signature verifies with its key for the message; and there only if
  -- the message is JSON but no object, or an object whose expiry is no number.
  pub verify_wallet_delegation-crashes :
      (x : Expected) (message_b64 signature_b64 wallet_b58 : String)
      → verify_wallet_delegation c x message_b64 signature_b64 wallet_b58 ≡ crashes
      → (message : String) × (signature : String) × (wallet : String) × (key : String)
        × (c.b64decode message_b64 ≡ some message)
        × (c.b64decode signature_b64 ≡ some signature)
        × (c.b58decode wallet_b58 ≡ some wallet)
        × (x.wallet_pub_b58 ≡ some wallet_b58)
        × (c.from_public_bytes wallet ≡ some key)
        × (c.verify key signature message ≡ true)
        × IsCrashCause message
  unfolding verify_wallet_delegation
  verify_wallet_delegation-crashes x message_b64 signature_b64 wallet_b58 e =
      let (m, m_eq, e1) = decoded-crashes _ _ _ e in
      let (s, s_eq, e2) = decoded-crashes _ _ _ e1 in
      let (w, w_eq, e3) = decoded-crashes _ _ _ e2 in
      let (a, e4) = require-crashes _ _ _ e3 in
      let (b, e5) = require-crashes _ _ _ e4 in
      let (key, key_eq, signed) = (wallet_verify_lem c w m s).0 b in
      let same = (option_beq_iff string_equality (some wallet_b58) x.wallet_pub_b58).0 a in
      (
        m,
        s,
        w,
        key,
        m_eq,
        s_eq,
        w_eq,
        sym same,
        key_eq,
        signed,
        loaded-crashes m (decode_signed_message c m) _ refl e5
            (check_payload-crashes x wallet_b58 m w),
      )
