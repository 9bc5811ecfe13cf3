-- ===== src/Session/Send/Queue.antt =====
-- What `Send` and `HandleWrite` do to the queue, on each branch.
use async_echo_server.Base.{
  ℕ, ◌≤◌, ◌<◌, ◌≡◌, refl, inl, inr, List, [], ◌∷◌, ◌++◌, ok, Exec-cases, length, arith, ltb,
  Bool-cases, ltb→lt, ltb→le, false, true,
}
use async_echo_server.Platform.{Platform}
use async_echo_server.MsgNode.{SendNode, new_send_node, wire_bytes, max_send_queue}
use async_echo_server.Session.{Session, Action, close}
use async_echo_server.Session.Send.Line.{writes}
use async_echo_server.Session.Send.{enqueue, write_front, handle_write}

-- The frame at the head of the queue.
unfoldable pub front : List SendNode → List (List ℕ)
front [] = []
front (node ∷ que) = wire_bytes node ∷ []

-- What `Send` comes to when it returns: the queue was over its limit and nothing happened, or the
-- frame is behind the queue, and is being written if it is alone.
pub data Enqueued (s s' : Session) (acts : List Action) : Type 0 where
  full : max_send_queue < length s.send_que → s' ≡ s → writes acts ≡ [] → Enqueued s s' acts
  first :
      (node : SendNode)
      → s.send_que ≡ []
      → s' ≡ record s { send_que = s.send_que ++ node ∷ [] }
      → writes acts ≡ wire_bytes node ∷ []
      → Enqueued s s' acts
  later :
      (node : SendNode)
      → 0 < length s.send_que
      → length s.send_que ≤ max_send_queue
      → s' ≡ record s { send_que = s.send_que ++ node ∷ [] }
      → writes acts ≡ []
      → Enqueued s s' acts

pub enqueue-Enqueued :
    (p : Platform) (s : Session) (msg : List ℕ) (len id : ℕ) (s' : Session) (acts : List Action)
    → enqueue p s msg len id ≡ ok (s', acts)
    → Enqueued s s' acts
unfolding enqueue write_front writes
enqueue-Enqueued p s msg len id s' acts e = by_size s.send_que refl
  where
    made :
        (node : SendNode) (q : List SendNode)
        → s.send_que ≡ q
        → new_send_node p msg len id ≡ ok node
        → length s.send_que ≤ max_send_queue
        → Enqueued s s' acts
    made node [] h m le = first node h (ground (arith, h)) (ground (arith, h))
    made node (x ∷ xs) h m le =
        later node (ground (arith, h)) le (ground (arith, h)) (ground (arith, h))

    by_size : (q : List SendNode) → s.send_que ≡ q → Enqueued s s' acts
    by_size q h = elim (Bool-cases (ltb max_send_queue (length s.send_que))) [
      | inl t ↦ full (ltb→lt _ _ t) (ground arith) (ground arith)
      | inr f ↦ elim (Exec-cases (new_send_node p msg len id)) [
        | inl (node, m) ↦ made node q h m (ltb→le _ _ f)
        | inr (inl m) ↦ absurd (ground arith)
        | inr (inr m) ↦ absurd (ground arith)
      ]
    ]

-- A completed write takes the head from the queue, and the next head is written.
pub handle_write-ok :
    (s : Session) (node : SendNode) (tail : List SendNode) (s' : Session) (acts : List Action)
    → s.send_que ≡ node ∷ tail
    → handle_write s false ≡ ok (s', acts)
    → (s' ≡ record s { send_que = tail }) × (writes acts ≡ front tail)
unfolding handle_write write_front writes front
handle_write-ok s node [] s' acts q e = ground (arith, q)
handle_write-ok s node (m ∷ ms) s' acts q e = ground (arith, q)

-- A failed write leaves the queue as it is and starts nothing.
pub handle_write-failed :
    (s s' : Session) (acts : List Action)
    → handle_write s true ≡ ok (s', acts)
    → (s' ≡ record s { b_close = true }) × (writes acts ≡ [])
unfolding handle_write close writes
handle_write-failed s s' acts e = ground arith
