-- ===== src/Websocket/Queue.antt =====
-- No message is lost or sent twice by `send_message` and `_send_pending_messages` of
-- websocket_client.py, and an undisturbed flush keeps the order.
use mathlib.Core.List.Perm
use mathlib.Core.List.{Perm, perm_middle, perm_append_singleton, append-nil, append_assoc}
use model_runner_client.Base.{
  ℕ, zero, suc, sym, ◌+◌, length, length-append, ap, subst, ◌≡◌, refl, none, some, List, [], ◌∷◌,
  ◌++◌, Bool-cases, inl, inr,
}
use model_runner_client.Websocket.{
  WebsocketClient, connection_closed, invalid_state, timed_out, connection_refused, other, Sending,
  Round, enqueue, deliver, entrust, try_send, send_message, after_send, go_on, flush_turn,
  flush_end, send_pending, socket_open,
}

-- All messages that the client has sent or holds.
abbrev pub traffic : {M : Type 0} → WebsocketClient M → List M
traffic c = c.delivered ++ c.message_queue

-- The messages that are put during a flush of a queue of this length: it takes a message in each round,
-- until the queue is empty or a send fails.
abbrev pub put_during : {M : Type 0} → ℕ → List (Round M) → List M
put_during n [] = []
put_during zero (r ∷ rounds) = []
put_during (suc n) ((arrivals, none) ∷ rounds) = arrivals ++ put_during (n + length arrivals) rounds
put_during (suc n) ((arrivals, some e) ∷ rounds) = arrivals

module _ {M : Type 0} where
  pub traffic-enqueue :
      (m : M) (c : WebsocketClient M) → Perm (traffic (enqueue m c)) (m ∷ traffic c)
  unfolding enqueue
  traffic-enqueue m c =
      rw (← append_assoc c.delivered c.message_queue (m ∷ [])) (perm_append_singleton m (traffic c))

  pub traffic-deliver :
      (m : M) (c : WebsocketClient M) → Perm (traffic (deliver m c)) (m ∷ traffic c)
  unfolding deliver
  traffic-deliver m c =
      rw (append_assoc c.delivered (m ∷ []) c.message_queue)
        (perm_middle c.delivered c.message_queue)

  try_send-traffic :
      (m : M) (sending : Sending) (c : WebsocketClient M)
      → (try_send m sending c).1 ≡ none
      → Perm (traffic (try_send m sending c).0) (m ∷ traffic c)
  unfolding try_send entrust
  try_send-traffic m none c h = traffic-deliver m (entrust m c)
  try_send-traffic m (some connection_closed) c h = traffic-enqueue m (entrust m c)
  try_send-traffic m (some invalid_state) c h = traffic-enqueue m (entrust m c)
  try_send-traffic m (some timed_out) c h = traffic-enqueue m (entrust m c)
  try_send-traffic m (some connection_refused) c h = cc
  try_send-traffic m (some other) c h = cc

  -- `send_message` either raises, or adds the message once to what was sent or is queued, and
  -- drops nothing.
  pub send_message_keeps :
      (m : M) (sending : Sending) (c : WebsocketClient M)
      → (send_message m sending c).1 ≡ none
      → Perm (traffic (send_message m sending c).0) (m ∷ traffic c)
  unfolding send_message
  send_message_keeps m sending c h = elim (Bool-cases (socket_open c.websocket)) [
    | inl e ↦ rw e (try_send-traffic m sending c (rw e at h))
    | inr e ↦ rw e (unfold entrust in traffic-enqueue m (entrust m c))
  ]

  after_send-traffic :
      (r : Round M) (m : M) (rest : List M) (c : WebsocketClient M)
      → c.message_queue ≡ m ∷ rest
      → Perm (traffic (after_send r m rest c).0) (traffic c ++ r.0)
  unfolding after_send deliver
  after_send-traffic (arrivals, none) m rest c e = simp (e, append_assoc) (Perm.refl _)
  after_send-traffic (arrivals, some x) m rest c e =
      simp (e, append_assoc)
        (Perm.append_left c.delivered
          (rw (← append_assoc rest arrivals (m ∷ [])) (perm_append_singleton m (rest ++ arrivals))))

  -- `d` has the messages of `c` and those that are put during a flush.
  abbrev Keeps : List (Round M) → WebsocketClient M → WebsocketClient M → Type 0
  Keeps rounds c d = Perm (traffic d) (traffic c ++ put_during (length c.message_queue) rounds)

  Keeps-nothing :
      (rounds : List (Round M)) (c : WebsocketClient M)
      → put_during (length c.message_queue) rounds ≡ []
      → Keeps rounds c c
  Keeps-nothing rounds c e = rw (e, append-nil) (Perm.refl _)

  after_send-Keeps :
      (r : Round M) (rounds : List (Round M)) (m : M) (rest : List M) (c : WebsocketClient M)
      → c.message_queue ≡ m ∷ rest
      → ((d : WebsocketClient M) → Keeps rounds d (send_pending rounds d).0)
      → Keeps (r ∷ rounds) c (go_on (after_send r m rest c) (send_pending rounds)).0
  unfolding go_on after_send deliver
  after_send-Keeps (arrivals, none) rounds m rest c e ih =
      let d = (after_send (arrivals, none) m rest c).0 in
      let p : Perm (traffic d) (traffic c ++ arrivals) =
        after_send-traffic (arrivals, none) m rest c e in
      let later = put_during (length rest + length arrivals) rounds in
      let q : Perm (traffic (send_pending rounds d).0) (traffic d ++ later) =
        subst (λ n. Perm (traffic (send_pending rounds d).0) (traffic d ++ put_during n rounds))
          (length-append rest arrivals) (ih d) in
      subst
        (λ xs.
          Perm (traffic (send_pending rounds d).0)
            (traffic c ++ put_during (length xs) ((arrivals, none) ∷ rounds)))
        (sym e)
        (Perm.trans q (rw (← append_assoc (traffic c) arrivals later) (Perm.append_right later p)))
  after_send-Keeps (arrivals, some x) rounds m rest c e ih =
      subst
        (λ xs.
          Perm (traffic (after_send (arrivals, some x) m rest c).0)
            (traffic c ++ put_during (length xs) ((arrivals, some x) ∷ rounds)))
        (sym e) (after_send-traffic (arrivals, some x) m rest c e)

  flush_turn-Keeps :
      (r : Round M) (rounds : List (Round M)) (q : List M) (c : WebsocketClient M)
      → c.message_queue ≡ q
      → ((d : WebsocketClient M) → Keeps rounds d (send_pending rounds d).0)
      → Keeps (r ∷ rounds) c (flush_turn (send_pending rounds) r q c).0
  unfolding flush_turn
  flush_turn-Keeps r rounds [] c e ih =
      Keeps-nothing (r ∷ rounds) c (ap (λ xs. put_during (length xs) (r ∷ rounds)) e)
  flush_turn-Keeps r rounds (m ∷ rest) c e ih = after_send-Keeps r rounds m rest c e ih

  flush_end-Keeps : (q : List M) (c : WebsocketClient M) → Keeps [] c (flush_end q c).0
  unfolding flush_end
  flush_end-Keeps [] c = Keeps-nothing [] c refl
  flush_end-Keeps (m ∷ rest) c = Keeps-nothing [] c refl

  -- A flush of the queue, finished, failed or under way, loses no message and doubles none: what was
  -- sent or queued before and what was put during its rounds is afterwards sent or queued. The rounds
  -- are those until the queue is empty or a send fails.
  pub send_pending_keeps :
      (rounds : List (Round M)) (c : WebsocketClient M)
      → Perm
          (traffic (send_pending rounds c).0)
          (traffic c ++ put_during (length c.message_queue) rounds)
  unfolding send_pending
  send_pending_keeps [] c = flush_end-Keeps c.message_queue c
  send_pending_keeps (r ∷ rounds) c =
      flush_turn-Keeps r rounds c.message_queue c refl (send_pending_keeps rounds)
