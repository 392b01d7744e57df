-- ===== src/Auth/Headers.antt =====
-- model_runner_client/security/grpc_auth_interceptor.py: the interceptor that checks the metadata of the
-- answer of each call.
use text.Mathlib.Text.{starts_with}
use model_runner_client.Base.{
  Bool, true, false, ◌||◌, Option, none, some, List, [], ◌∷◌, if◌then◌else◌, String,
}
use model_runner_client.Base.Eq.{◌==◌, string_equality, option_equality}
use model_runner_client.Dict
use model_runner_client.Dict.{Dict}
use model_runner_client.Auth.{
  Codec, Refusal, not_strings, missing_metadata, Verdict, verified, refused, crashes, Expected,
  verify_wallet_delegation,
}

-- A metadata value: a text, or bytes for a key that ends in `-bin`.
pub data MdValue : Type 0 where
  ascii : String → MdValue
  binary : String → MdValue

abbrev pub Metadata : Type 0
Metadata = List (String × MdValue)

abbrev pub is_text : MdValue → Bool
is_text (ascii s) = true
is_text (binary s) = false

-- `not value` for what `d.get` gave.
abbrev pub is_missing : Option MdValue → Bool
is_missing none = true
is_missing (some (ascii s)) = s == ""
is_missing (some (binary s)) = s == ""

-- The end of `initial_metadata` and of `code` with `details`, and how the call ends for the caller.
pub data MdEnd : Type 0 where
  arrives : Metadata → MdEnd
  md_auth_error : MdEnd
  md_raises : MdEnd

pub data CallResult : Type 0 where
  call_returned : CallResult
  -- the `AuthError` of the check, or one of `initial_metadata`
  auth_refused : Option Refusal → CallResult
  -- the `AuthError` that says that the node refused the credentials
  credentials_refused : CallResult
  call_raises : CallResult

-- The state of the call object: whether `cancel` was called on it.
abbrev pub Cancelled : Type 0
Cancelled = Bool

module _ {O : Type 0} (c : Codec O) where
  unfoldable pub md_insert : Dict String MdValue → Metadata → Dict String MdValue
  md_insert d [] = d
  md_insert d ((k, v) ∷ md) = md_insert (Dict.put (c.lower k) v d) md

  -- `_md_to_dict`
  unfoldable pub md_to_dict : Metadata → Dict String MdValue
  unfolding md_insert
  md_to_dict md = md_insert [] md

  -- `_should_protect`
  abbrev pub should_protect : String → String → Bool
  should_protect prefix method = prefix == "" || starts_with method prefix

  -- The type test, and the call of the check.
  unfoldable pub verify_values :
      Expected → Option MdValue → Option MdValue → Option MdValue → Verdict O
  unfolding verify_wallet_delegation
  verify_values x (some (ascii m)) (some (ascii s)) (some (ascii w)) =
      verify_wallet_delegation c x m s w
  verify_values x m s w = refused not_strings

  unfoldable pub verify_from_call_headers : Expected → Metadata → Verdict O
  unfolding md_to_dict verify_values
  verify_from_call_headers x md =
      let d = md_to_dict md in
      let m = Dict.get "x-server-auth-message" d in
      let s = Dict.get "x-server-auth-signature" d in
      let w = Dict.get "x-server-wallet-pubkey" d in
      if is_missing m || (is_missing s || is_missing w)
      then refused missing_metadata
      else verify_values x m s w

  -- `except AuthError`: `unauthenticated` says that the cancelled call is done with that code.
  on_auth_error : Bool → Option Refusal → Cancelled × CallResult
  on_auth_error true why = (true, credentials_refused)
  on_auth_error false why = (true, auth_refused why)

  unfoldable pub on_verdict : Verdict O → Bool → Cancelled × CallResult
  unfolding on_auth_error
  on_verdict (verified info) unauthenticated = (false, call_returned)
  on_verdict (refused why) unauthenticated = on_auth_error unauthenticated (some why)
  on_verdict crashes unauthenticated = (true, call_raises)

  unfoldable pub on_metadata : Expected → MdEnd → Bool → Cancelled × CallResult
  unfolding on_verdict verify_from_call_headers
  on_metadata x (arrives md) unauthenticated =
      on_verdict (verify_from_call_headers x md) unauthenticated
  on_metadata x md_auth_error unauthenticated = on_auth_error unauthenticated none
  on_metadata x md_raises unauthenticated = (true, call_raises)

  -- `_intercept`, from where the continuation has returned the call.
  unfoldable pub intercept : String → Expected → String → MdEnd → Bool → Cancelled × CallResult
  unfolding on_metadata
  intercept prefix x method md unauthenticated =
      if should_protect prefix method
      then on_metadata x md unauthenticated
      else (false, call_returned)
