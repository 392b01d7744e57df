-- ===== src/Websocket/Reconnect.antt =====
-- The retries of `connect` in websocket_client.py, and the clean-up of a lost connection by `listen`.
use model_runner_client.Base.{
  ℕ, zero, suc, ◌≡◌, refl, Bool, true, false, some, is_some, List, [], ◌∷◌, arith, length, ◌≤◌, ◌⊎◌,
  ap, ◌∙◌, if◌then◌else◌,
}
use model_runner_client.Websocket.{
  WebsocketClient, SocketState, opened, closing, closed, max_retries, is_connected, Attempt,
  accepted, refused, done, connection_error, after_retries, connect_loop, connect, cleanup,
}

-- One of the first `n` attempts is accepted.
abbrev pub is_accepted : ℕ → List Attempt → Bool
is_accepted zero attempts = false
is_accepted (suc n) [] = false
is_accepted (suc n) (accepted ∷ attempts) = true
is_accepted (suc n) (refused e ∷ attempts) = is_accepted n attempts

module _ {M : Type 0} where
  connect_loop_lem :
      (n : ℕ) (attempts : List Attempt) (c : WebsocketClient M)
      → n ≤ length attempts
      → connect_loop n attempts c ≡ (
          if is_accepted n attempts
          then (record c { websocket = some opened }, done)
          else (c, if is_some c.websocket then done else connection_error))
  unfolding connect_loop after_retries
  connect_loop_lem zero attempts c l = ground arith
  connect_loop_lem (suc n) [] c l = absurd (omega arith)
  connect_loop_lem (suc n) (accepted ∷ attempts) c l = refl
  connect_loop_lem (suc n) (refused e ∷ attempts) c l = connect_loop_lem n attempts c (omega arith)

  -- `connect` ends with the fifth attempt at the latest. It is connected exactly if one of the first
  -- five is accepted; otherwise it raises, unless a connection object of an earlier time is still
  -- held: then it returns normally and holds that object.
  pub connect_lem :
      (attempts : List Attempt) (c : WebsocketClient M)
      → max_retries ≤ length attempts
      → connect attempts c ≡ (
          if is_accepted max_retries attempts
          then (record c { websocket = some opened }, done)
          else (c, if is_some c.websocket then done else connection_error))
  unfolding connect
  connect_lem attempts c l = connect_loop_lem max_retries attempts c l

  cleanup_keeps :
      (c : WebsocketClient M) (s : SocketState)
      → c.websocket ≡ some s
      → (s ≡ closing) ⊎ (s ≡ closed)
      → cleanup c ≡ c
  unfolding cleanup
  cleanup_keeps c s e h = ground arith

  -- A connection that was lost is not cleared by the clean-up. If then every attempt to reconnect is
  -- refused, `connect` reports no error, and the client is not connected.
  pub reconnect_hides_failure :
      (attempts : List Attempt) (c : WebsocketClient M) (s : SocketState)
      → c.websocket ≡ some s
      → (s ≡ closing) ⊎ (s ≡ closed)
      → max_retries ≤ length attempts
      → is_accepted max_retries attempts ≡ false
      → (connect attempts (cleanup c) ≡ (c, done)) × (is_connected c ≡ false)
  reconnect_hides_failure attempts c s e h l a = (
    ap (connect attempts) (cleanup_keeps c s e h) ∙ connect_lem attempts c l ∙ simp (a, e),
    unfold is_connected in ground arith,
  )
