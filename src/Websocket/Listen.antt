-- ===== src/Websocket/Listen.antt =====
-- The loop `listen` of websocket_client.py: an iteration of it, and what it does with queued messages.
use mathlib.Core.List.Perm
use mathlib.Core.List.{Perm, append-nil}
use model_runner_client.Base.{
  subst, ◌⊎◌, ℕ, zero, suc, ◌≡◌, refl, ◌∙◌, ap, true, false, some, List, [], ◌∷◌, ◌++◌, arith, ◌≤◌,
  length, if◌then◌else◌, Bool-cases, inl, inr, is_some,
}
use model_runner_client.Websocket.{
  WebsocketClient, SocketState, opened, max_retries, is_connected, Round, Flush, flushing, flushed,
  flush_failed, send_pending, Attempt, accepted, refused, Connection, trying, done,
  connection_error, after_retries, connect_loop, connect, cleanup,
}
use model_runner_client.Websocket.Queue.{traffic, put_during, send_pending_keeps}
use model_runner_client.Websocket.Order.{Undisturbed, send_pending_in_order}
use model_runner_client.Websocket.Reconnect.{is_accepted, connect_lem}

-- What the environment does in an iteration: the attempts to connect, the sends of the flush, and the
-- state of the socket when `async for` ends, normally or by an exception.
pub record Iteration (M : Type 0) : Type 0 where
  pub attempts : List Attempt
  pub rounds : List (Round M)
  pub ends_in : SocketState

-- Whether the iteration has got to its end, or still waits in `connect` or in a send.
pub data Listening : Type 0 where
  waits : Listening
  iterated : Listening

module _ {M : Type 0} where
  -- The end of `async for`, and the `finally` clause.
  receive : SocketState → WebsocketClient M → WebsocketClient M × Listening
  unfolding cleanup
  receive s c =
      (cleanup (if is_some c.websocket then record c { websocket = some s } else c), iterated)

  after_flush : SocketState → WebsocketClient M × Flush → WebsocketClient M × Listening
  unfolding receive cleanup
  after_flush s (c, flushing) = (c, waits)
  after_flush s (c, flushed) = receive s c
  after_flush s (c, flush_failed e) = (cleanup c, iterated)

  after_connect :
      List (Round M) → SocketState → WebsocketClient M × Connection → WebsocketClient M × Listening
  unfolding after_flush send_pending cleanup
  after_connect rounds s (c, trying) = (c, waits)
  after_connect rounds s (c, done) = after_flush s (send_pending rounds c)
  after_connect rounds s (c, connection_error) = (cleanup c, iterated)

  unfoldable pub listen_turn : Iteration M → WebsocketClient M → WebsocketClient M × Listening
  unfolding receive after_connect connect is_connected
  listen_turn x c =
      if is_connected c
      then receive x.ends_in c
      else after_connect x.rounds x.ends_in (connect x.attempts c)

  receive-same :
      (s : SocketState) (c : WebsocketClient M)
      → ((receive s c).0.delivered ≡ c.delivered)
        × ((receive s c).0.message_queue ≡ c.message_queue)
  unfolding receive cleanup
  receive-same s c = ground arith

  connect_loop-same :
      (n : ℕ) (attempts : List Attempt) (c : WebsocketClient M)
      → ((connect_loop n attempts c).0.delivered ≡ c.delivered)
        × ((connect_loop n attempts c).0.message_queue ≡ c.message_queue)
  unfolding connect_loop after_retries
  connect_loop-same zero attempts c = ground arith
  connect_loop-same (suc n) [] c = (refl, refl)
  connect_loop-same (suc n) (accepted ∷ attempts) c = (refl, refl)
  connect_loop-same (suc n) (refused e ∷ attempts) c = connect_loop-same n attempts c

  -- What an iteration has kept of the messages, and nothing else.
  abbrev KeepsAll : List (Round M) → WebsocketClient M → WebsocketClient M → Type 0
  KeepsAll rounds c d =
      (ms : List M) × ((ms ≡ []) ⊎ (ms ≡ put_during (length c.message_queue) rounds))
      × Perm (traffic d) (traffic c ++ ms)

  traffic-ap :
      (d c : WebsocketClient M)
      → d.delivered ≡ c.delivered
      → d.message_queue ≡ c.message_queue
      → traffic d ≡ traffic c
  traffic-ap d c e f = rw (e, f) refl

  KeepsAll-same :
      (rounds : List (Round M)) (c d : WebsocketClient M)
      → d.delivered ≡ c.delivered
      → d.message_queue ≡ c.message_queue
      → KeepsAll rounds c d
  KeepsAll-same rounds c d e f = ([], inl refl, simp (e, f, append-nil) (Perm.refl _))

  after_flush-KeepsAll :
      (rounds : List (Round M)) (s : SocketState) (c : WebsocketClient M)
      (res : WebsocketClient M × Flush)
      → KeepsAll rounds c res.0
      → KeepsAll rounds c (after_flush s res).0
  unfolding after_flush cleanup
  after_flush-KeepsAll rounds s c (d, flushing) k = k
  after_flush-KeepsAll rounds s c (d, flush_failed e) k = k
  after_flush-KeepsAll rounds s c (d, flushed) k = let (e, f) = receive-same s d in simp (e, f) k

  after_connect-KeepsAll :
      (rounds : List (Round M)) (s : SocketState) (c : WebsocketClient M)
      (res : WebsocketClient M × Connection)
      → res.0.delivered ≡ c.delivered
      → res.0.message_queue ≡ c.message_queue
      → KeepsAll rounds c (after_connect rounds s res).0
  unfolding after_connect cleanup
  after_connect-KeepsAll rounds s c (d, trying) e f = KeepsAll-same rounds c d e f
  after_connect-KeepsAll rounds s c (d, connection_error) e f = KeepsAll-same rounds c d e f
  after_connect-KeepsAll rounds s c (d, done) e f =
      after_flush-KeepsAll rounds s c (send_pending rounds d) (
        put_during (length c.message_queue) rounds,
        inr refl,
        subst (λ n. Perm (traffic (send_pending rounds d).0) (traffic c ++ put_during n rounds))
            (ap length f)
            (subst
              (λ xs.
                Perm (traffic (send_pending rounds d).0)
                  (xs ++ put_during (length d.message_queue) rounds))
              (traffic-ap d c e f) (send_pending_keeps rounds d)),
      )

  -- An iteration of the loop, however it ends, loses no message and doubles none: what was sent or
  -- queued before and what was put during its flush, if it comes to one, is afterwards sent or queued.
  pub listen_keeps :
      (x : Iteration M) (c : WebsocketClient M)
      → (ms : List M) × ((ms ≡ []) ⊎ (ms ≡ put_during (length c.message_queue) x.rounds))
        × Perm (traffic (listen_turn x c).0) (traffic c ++ ms)
  unfolding listen_turn
  listen_keeps x c = elim (Bool-cases (is_connected c)) [
    | inl h ↦
        let (e, f) = receive-same x.ends_in c in
        rw h (KeepsAll-same x.rounds c (receive x.ends_in c).0 e f)
    | inr h ↦
        let (e, f) = connect_loop-same max_retries x.attempts c in
        rw h (after_connect-KeepsAll x.rounds x.ends_in c (connect x.attempts c) e f)
  ]

  -- A client that was not connected, and whose first five attempts include an accepted one, sends
  -- its whole queue in order, if nothing disturbs the flush and there is a round for each message.
  pub listen_delivers :
      (x : Iteration M) (c : WebsocketClient M)
      → is_connected c ≡ false
      → max_retries ≤ length x.attempts
      → is_accepted max_retries x.attempts ≡ true
      → Undisturbed x.rounds
      → length c.message_queue ≤ length x.rounds
      → let d = (listen_turn x c).0 in
        (d.delivered ≡ c.delivered ++ c.message_queue) × (d.message_queue ≡ [])
  unfolding listen_turn after_connect after_flush
  listen_delivers x c h l a u q =
      let c' = record c { websocket = some opened } in
      let connected : connect x.attempts c ≡ (c', done) = connect_lem x.attempts c l ∙ simp a in
      let flush = send_pending_in_order x.rounds c' u q in
      let d = record c' { message_queue = []; delivered = c.delivered ++ c.message_queue } in
      let (e, f) = receive-same x.ends_in d in
      let same : listen_turn x c ≡ receive x.ends_in d =
        rw h (ap (after_connect x.rounds x.ends_in) connected ∙ ap (after_flush x.ends_in) flush) in
      (ap (λ r. r.0.delivered) same ∙ e, ap (λ r. r.0.message_queue) same ∙ f)
