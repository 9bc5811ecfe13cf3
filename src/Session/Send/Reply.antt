-- ===== src/Session/Send/Reply.antt =====
-- `Send` of a text, on each branch.
use async_echo_server.Base.{
  ℕ, ◌+◌, ◌^◌, ◌≤◌, ◌<◌, ◌≡◌, refl, ap, ◌∙◌, ◌⊎◌, inl, inr, List, [], ◌∷◌, ◌++◌, ok, threw, corrupt,
  length, arith, ltb, if◌then◌else◌, le→ltb, ltb→le, Bool-cases, length-append, take-append,
}
use async_echo_server.Platform.{Platform, short_of_size_lem, is_negative_ge}
use async_echo_server.MsgNode.{SendNode, new_send_node, wire_bytes, max_send_queue}
use async_echo_server.MsgNode.Laws.{new_msg_node-negative}
use async_echo_server.MsgNode.Encode.{new_send_node-frame}
use async_echo_server.Wire.Frames.{frame}
use async_echo_server.Session.{Session, async_write}
use async_echo_server.Session.Send.{enqueue, send_string, write_front}

-- The session with one more frame behind its queue.
abbrev pub with_frame : Session → SendNode → Session
with_frame s node = record s { send_que = s.send_que ++ node ∷ [] }

alone :
    (s : Session) (que : List SendNode) (node : SendNode)
    → s.send_que ≡ que
    → length que ≡ 0
    → write_front (s.send_que ++ node ∷ []) ≡ ok (async_write (wire_bytes node) ∷ [])
unfolding write_front
alone s [] node q e = rw q
alone s (x ∷ xs) node q e = absurd (omega arith)

enqueue_lem :
    (p : Platform) (s : Session) (msg : List ℕ) (len id : ℕ) (node : SendNode)
    → new_send_node p msg len id ≡ ok node
    → enqueue p s msg len id ≡ (
        if ltb max_send_queue (length s.send_que)
        then ok (s, [])
        else if ltb 0 (length s.send_que)
        then ok (with_frame s node, [])
        else ok (with_frame s node, async_write (wire_bytes node) ∷ []))
unfolding enqueue
enqueue_lem p s msg len id node made = elim (Bool-cases (ltb max_send_queue (length s.send_que))) [
  | inl t ↦ rw t
  | inr f ↦
      rw (f, made)
        (elim (Bool-cases (ltb 0 (length s.send_que))) [
          | inl some_before ↦ rw some_before
          | inr none_before ↦
              rw (none_before, alone s s.send_que node refl (omega (arith, ltb→le _ _ none_before)))
        ])
]

-- Send(std::string) of a text of at most 32763 bytes: with more than `MAX_SENDQUEUE` frames in the
-- queue the call changes nothing; else the frame of the id and the whole text goes behind the
-- queue, and is written at once exactly when it is alone there.
pub send_string_lem :
    (p : Platform) (s : Session) (msg : List ℕ) (id : ℕ)
    → length msg + 4 < 0x8000
    → id < 2 ^ 16
    → (node : SendNode) × (wire_bytes node ≡ frame (record { id = id; text = msg }))
      × (send_string p s msg id ≡ (
          if ltb max_send_queue (length s.send_que)
          then ok (s, [])
          else if ltb 0 (length s.send_que)
          then ok (with_frame s node, [])
          else ok (with_frame s node, async_write (wire_bytes node) ∷ [])))
unfolding send_string
send_string_lem p s msg id small id_fits =
    let (node, made, bytes) =
      new_send_node-frame p (msg ++ 0 ∷ []) (length msg) id
        (omega (arith, length-append msg (0 ∷ []))) small id_fits in
    (
      node,
      bytes
          ∙ ap (λ k. frame (record { id = id; text = k }))
              (take-append (length msg) msg (0 ∷ []) refl),
      rw (short_of_size_lem (length msg) (omega arith))
          (enqueue_lem p s (msg ++ 0 ∷ []) (length msg) id node made),
    )

-- Send(std::string) of a longer text: the length and the header no longer fit a `short`, so that
-- whenever the queue has room no frame can be made, and the call throws
-- `std::bad_array_new_length` or writes outside the node.
pub send_string-too_long :
    (p : Platform) (s : Session) (msg : List ℕ) (id : ℕ)
    → 0x8000 ≤ length msg + 4
    → length msg + 4 < 2 ^ 16
    → length s.send_que ≤ max_send_queue
    → (send_string p s msg id ≡ threw) ⊎ (send_string p s msg id ≡ corrupt)
unfolding send_string enqueue new_send_node
send_string-too_long p s msg id long fits room =
    rw
      (
        short_of_size_lem (length msg) (omega arith),
        le→ltb max_send_queue (length s.send_que) room,
        short_of_size_lem (length msg + 4) fits,
      )
      (elim (new_msg_node-negative (length msg + 4) (is_negative_ge (length msg + 4) long)) [
        | inl e ↦ inl (rw e)
        | inr e ↦ inr (rw e)
      ])
