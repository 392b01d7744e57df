-- ===== src/Websocket/Order.antt =====
-- The order in which `_send_pending_messages` of websocket_client.py sends, and that it ends.
use mathlib.Core.List.{append-nil, append_assoc}
use model_runner_client.Base.{◌≡◌, refl, ◌∙◌, none, List, [], ◌∷◌, ◌++◌, arith, ◌≤◌, length}
use model_runner_client.Websocket.{WebsocketClient, Round, flushed, deliver, send_pending}

module _ {M : Type 0} where
  -- Every send of these rounds succeeds, and nothing is put meanwhile.
  abbrev pub Undisturbed : List (Round M) → Type 0
  Undisturbed [] = Unit
  Undisturbed (r ∷ rounds) = (r.0 ≡ []) × (r.1 ≡ none) × Undisturbed rounds

  Undisturbed-turn :
      (rounds : List (Round M)) (q : List M) (c : WebsocketClient M)
      → c.message_queue ≡ q
      → Undisturbed rounds
      → length q ≤ length rounds
      → send_pending rounds c
        ≡ (record c { message_queue = []; delivered = c.delivered ++ q }, flushed)
  unfolding send_pending deliver
  Undisturbed-turn [] [] c e u l =
      simp (e, append-nil) (λ i. (record c { message_queue = e i }, flushed))
  Undisturbed-turn [] (m ∷ q) c e u l = absurd (omega arith)
  Undisturbed-turn (r ∷ rounds) [] c e u l =
      simp (e, append-nil) (λ i. (record c { message_queue = e i }, flushed))
  Undisturbed-turn ((xs, x) ∷ rounds) (m ∷ q) c e u l =
      let c' = record c { message_queue = q ++ []; delivered = c.delivered ++ m ∷ [] } in
      let ih = Undisturbed-turn rounds q c' (append-nil q) u.2 (omega arith) in
      simp (e, u.0, u.1) (ih ∙ simp append_assoc)

  -- An undisturbed flush, with a round for each message, sends the whole queue, oldest first, and
  -- leaves it empty.
  pub send_pending_in_order :
      (rounds : List (Round M)) (c : WebsocketClient M)
      → Undisturbed rounds
      → length c.message_queue ≤ length rounds
      → send_pending rounds c
        ≡ (record c { message_queue = []; delivered = c.delivered ++ c.message_queue }, flushed)
  send_pending_in_order rounds c u l = Undisturbed-turn rounds c.message_queue c refl u l
