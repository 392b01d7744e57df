-- ===== src/Websocket/Mail.antt =====
-- The messages that websocket_client.py has taken over from `send_message`, and where they are.
use mathlib.Core.List.Perm
use mathlib.Core.List.{Perm, perm_middle, perm_append_singleton}
use model_runner_client.Base.{◌≡◌, refl, none, some, List, [], ◌∷◌, ◌++◌}
use model_runner_client.Websocket.{
  WebsocketClient, connection_closed, invalid_state, timed_out, connection_refused, other, Sending,
  enqueue, deliver, entrust, try_send,
}
use model_runner_client.Websocket.Queue.{traffic, traffic-enqueue, traffic-deliver}

module _ {M : Type 0} where
  -- The messages that were taken over are, each once, those that were sent, those in the queue, and
  -- those in hand.
  abbrev pub IsBalanced : List M → WebsocketClient M → Type 0
  IsBalanced hand c = Perm (hand ++ traffic c) c.entrusted

  -- A change that keeps the balance, whatever is in hand.
  abbrev pub Keeps : WebsocketClient M → WebsocketClient M → Type 0
  Keeps c d = (hand : List M) → IsBalanced hand c → IsBalanced hand d

  -- One more message is taken over, and it is sent or queued.
  entrusted-Keeps :
      (m : M) (c d : WebsocketClient M)
      → Perm (traffic d) (m ∷ traffic c)
      → d.entrusted ≡ c.entrusted ++ m ∷ []
      → Keeps c d
  entrusted-Keeps m c d p e hand h = Perm.trans (Perm.append_left hand p) (
      Perm.trans (perm_middle hand (traffic c))
        (Perm.trans (Perm.cons m h) (rw e (Perm.symm (perm_append_singleton m c.entrusted)))))

  pub enqueue-entrust-Keeps : (m : M) (c : WebsocketClient M) → Keeps c (enqueue m (entrust m c))
  enqueue-entrust-Keeps m c =
      entrusted-Keeps m c (enqueue m (entrust m c))
        (unfold entrust in traffic-enqueue m (entrust m c)) (unfold enqueue entrust in refl)

  pub try_send-Keeps : (m : M) (x : Sending) (c : WebsocketClient M) → Keeps c (try_send m x c).0
  unfolding try_send
  try_send-Keeps m none c =
      entrusted-Keeps m c (deliver m (entrust m c))
        (unfold entrust in traffic-deliver m (entrust m c)) (unfold deliver entrust in refl)
  try_send-Keeps m (some connection_closed) c = enqueue-entrust-Keeps m c
  try_send-Keeps m (some invalid_state) c = enqueue-entrust-Keeps m c
  try_send-Keeps m (some timed_out) c = enqueue-entrust-Keeps m c
  try_send-Keeps m (some connection_refused) c = λ hand h. h
  try_send-Keeps m (some other) c = λ hand h. h

  -- A message in hand is sent, goes back to the queue, or is taken from it.
  pub deliver-IsBalanced :
      (m : M) (c : WebsocketClient M) → IsBalanced (m ∷ []) c → IsBalanced [] (deliver m c)
  deliver-IsBalanced m c h = Perm.trans (traffic-deliver m c) (unfold deliver in h)

  pub enqueue-IsBalanced :
      (m : M) (c : WebsocketClient M) → IsBalanced (m ∷ []) c → IsBalanced [] (enqueue m c)
  enqueue-IsBalanced m c h = Perm.trans (traffic-enqueue m c) (unfold enqueue in h)

  pub take-IsBalanced :
      (m : M) (rest : List M) (c : WebsocketClient M)
      → c.message_queue ≡ m ∷ rest
      → IsBalanced [] c
      → IsBalanced (m ∷ []) (record c { message_queue = rest })
  take-IsBalanced m rest c e h =
      let p : Perm (c.delivered ++ m ∷ rest) c.entrusted = rw e at h in
      Perm.trans (Perm.symm (perm_middle c.delivered rest)) p
