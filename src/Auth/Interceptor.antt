-- ===== src/Auth/Interceptor.antt =====
-- What the interceptor of grpc_auth_interceptor.py lets pass.
use model_runner_client.Base.{
  ◌≡◌, ◌≢◌, refl, sym, Bool, true, false, not, Option, none, some, [], ◌∷◌, arith, String, or_else,
  if◌then◌else◌, Bool-cases, inl, inr, ◌||◌,
}
use model_runner_client.Base.Eq.{◌==◌, string_equality, option_equality}
use model_runner_client.Dict
use model_runner_client.Dict.{Dict, get-put, get-nil}
use model_runner_client.Auth.{
  Codec, Refusal, DelegationInfo, Verdict, verified, refused, crashes, Expected,
}
use model_runner_client.Auth.Headers.{
  MdValue, ascii, Metadata, is_missing, MdEnd, arrives, md_auth_error, md_raises, CallResult,
  call_returned, md_insert, md_to_dict, should_protect, verify_values, verify_from_call_headers,
  on_verdict, on_metadata, intercept,
}
use model_runner_client.Auth.Delegation.{IsDelegated, verify_wallet_delegation_lem}

abbrev pub is_returned : CallResult → Bool
is_returned call_returned = true
is_returned _ = false

module _ {O : Type 0} (c : Codec O) where
  -- The value of the last entry whose key is `k` in lower case.
  abbrev pub last_value : String → Metadata → Option MdValue
  last_value k [] = none
  last_value k ((j, v) ∷ md) = or_else (last_value k md) (if k == c.lower j then some v else none)

  md_insert-get :
      (k : String) (d : Dict String MdValue) (md : Metadata)
      → Dict.get k (md_insert c d md) ≡ or_else (last_value k md) (Dict.get k d)
  unfolding md_insert
  md_insert-get k d [] = refl
  md_insert-get k d ((j, v) ∷ md) =
      ground (arith, md_insert-get k (Dict.put (c.lower j) v d) md, get-put k (c.lower j) v d)

  md_to_dict-get : (k : String) (md : Metadata) → Dict.get k (md_to_dict c md) ≡ last_value k md
  unfolding md_to_dict
  md_to_dict-get k md = ground (arith, md_insert-get k [] md, get-nil {V = MdValue} k)

  on_verdict_cancels :
      (v : Verdict O) (b : Bool) → (on_verdict c v b).0 ≡ not (is_returned (on_verdict c v b).1)
  unfolding on_verdict
  on_verdict_cancels (verified info) b = refl
  on_verdict_cancels (refused why) true = refl
  on_verdict_cancels (refused why) false = refl
  on_verdict_cancels crashes b = refl

  on_metadata_cancels :
      (x : Expected) (e : MdEnd) (b : Bool)
      → (on_metadata c x e b).0 ≡ not (is_returned (on_metadata c x e b).1)
  unfolding on_metadata
  on_metadata_cancels x (arrives md) b = on_verdict_cancels (verify_from_call_headers c x md) b
  on_metadata_cancels x md_auth_error true = refl
  on_metadata_cancels x md_auth_error false = refl
  on_metadata_cancels x md_raises b = refl

  -- The interceptor cancels the call exactly if it does not return it.
  pub intercept_cancels :
      (prefix : String) (x : Expected) (method : String) (e : MdEnd) (b : Bool)
      → (intercept c prefix x method e b).0 ≡ not (is_returned (intercept c prefix x method e b).1)
  unfolding intercept
  intercept_cancels prefix x method e b = elim (Bool-cases (should_protect c prefix method)) [
    | inl h ↦ rw h (on_metadata_cancels x e b)
    | inr h ↦ rw h refl
  ]

  -- The node answered with the metadata of a delegation.
  pub record IsAuthorised (x : Expected) (md : Metadata) : Type 0 where
    pub message : String
    pub signature : String
    pub wallet : String
    pub info : DelegationInfo O
    pub has_message : last_value "x-server-auth-message" md ≡ some (ascii message)
    pub has_signature : last_value "x-server-auth-signature" md ≡ some (ascii signature)
    pub has_wallet : last_value "x-server-wallet-pubkey" md ≡ some (ascii wallet)
    pub delegated : IsDelegated c x message signature wallet info

  verify_values-verified :
      (x : Expected) (md : Metadata) (m s w : Option MdValue) (info : DelegationInfo O)
      → last_value "x-server-auth-message" md ≡ m
      → last_value "x-server-auth-signature" md ≡ s
      → last_value "x-server-wallet-pubkey" md ≡ w
      → verify_values c x m s w ≡ verified info
      → IsAuthorised x md
  unfolding verify_values
  verify_values-verified x md (some (ascii m)) (some (ascii s)) (some (ascii w)) info a b d e =
      record {
        message = m;
        signature = s;
        wallet = w;
        info = info;
        has_message = a;
        has_signature = b;
        has_wallet = d;
        delegated = (verify_wallet_delegation_lem c x m s w info).0 e;
      }
  verify_values-verified x md _ _ _ info a b d e = cc

  refused_ne_verified : (why : Refusal) (info : DelegationInfo O) → refused why ≢ verified info
  refused_ne_verified why info e = cc

  verify_from_call_headers-verified :
      (x : Expected) (md : Metadata) (info : DelegationInfo O)
      → verify_from_call_headers c x md ≡ verified info
      → IsAuthorised x md
  unfolding verify_from_call_headers
  verify_from_call_headers-verified x md info e =
      let d = md_to_dict c md in
      let m = Dict.get "x-server-auth-message" d in
      let s = Dict.get "x-server-auth-signature" d in
      let w = Dict.get "x-server-wallet-pubkey" d in
      elim (Bool-cases (is_missing m || (is_missing s || is_missing w))) [
        | inl h ↦ absurd (refused_ne_verified _ info (rw h at e))
        | inr h ↦
            verify_values-verified x md m s w info (sym (md_to_dict-get _ md))
              (sym (md_to_dict-get _ md)) (sym (md_to_dict-get _ md)) (rw h at e)
      ]

  on_verdict-returned :
      (v : Verdict O) (b : Bool)
      → (on_verdict c v b).1 ≡ call_returned
      → (info : DelegationInfo O) × (v ≡ verified info)
  unfolding on_verdict
  on_verdict-returned (verified info) b e = (info, refl)
  on_verdict-returned (refused why) true e = cc
  on_verdict-returned (refused why) false e = cc
  on_verdict-returned crashes b e = cc

  on_metadata-returned :
      (x : Expected) (e : MdEnd) (b : Bool)
      → (on_metadata c x e b).1 ≡ call_returned
      → (md : Metadata) × (e ≡ arrives md) × IsAuthorised x md
  unfolding on_metadata
  on_metadata-returned x (arrives md) b h =
      let (info, v) = on_verdict-returned (verify_from_call_headers c x md) b h in
      (md, refl, verify_from_call_headers-verified x md info v)
  on_metadata-returned x md_auth_error true h = cc
  on_metadata-returned x md_auth_error false h = cc
  on_metadata-returned x md_raises b h = cc

  -- A call of a protected method comes back to the caller only if the node's metadata hold a
  -- delegation by the expected wallet for the key of the TLS connection, the model and the hotkey.
  pub intercept_guards :
      (prefix : String) (x : Expected) (method : String) (e : MdEnd) (b : Bool)
      → should_protect c prefix method ≡ true
      → (intercept c prefix x method e b).1 ≡ call_returned
      → (md : Metadata) × (e ≡ arrives md) × IsAuthorised x md
  unfolding intercept
  intercept_guards prefix x method e b p h = on_metadata-returned x e b (rw p at h)
