-- ===== src/Session/Send.antt =====
-- CSession::Send and CSession::HandleWrite: the queue of frames, of which the first is being
-- written. Each runs under `_send_lock`, so a call is one step.
pub mod Line
pub mod Queue
pub mod Order
pub mod Safety
pub mod Reply
mod Tests
use async_echo_server.Base.{
  ℕ, Bool, true, false, List, [], ◌∷◌, ◌++◌, Exec, ok, corrupt, ◌>>=◌, ltb, length, if◌then◌else◌,
}
use async_echo_server.Platform.{Platform, short_of_size}
use async_echo_server.MsgNode.{SendNode, new_send_node, wire_bytes, max_send_queue}
use async_echo_server.Session.{Session, Action, async_write, clear_session, close}

-- `async_write` of `_send_que.front()`; there is no front in an empty queue.
unfoldable pub write_front : List SendNode → Exec (List Action)
write_front [] = corrupt
write_front (node ∷ que) = ok (async_write (wire_bytes node) ∷ [])

-- What both overloads of `Send` do with a buffer and a length that has become a `short`.
unfoldable pub enqueue : Platform → Session → List ℕ → ℕ → ℕ → Exec (Session × List Action)
enqueue p s msg len msg_id =
    let send_queue_size = length s.send_que in
    if ltb max_send_queue send_queue_size then ok (s, []) else (do
      node ← new_send_node p msg len msg_id
      let s' = record s { send_que = s.send_que ++ node ∷ [] }
      if ltb 0 send_queue_size
          then ok (s', [])
          else (do acts ← write_front s'.send_que; ok (s', acts)))

-- Send(char *msg, int max_length, short msg_id): `buffer` is what `msg` points to.
unfoldable pub send_chars : Platform → Session → List ℕ → ℕ → ℕ → Exec (Session × List Action)
unfolding enqueue
send_chars p s buffer max_len msg_id = enqueue p s buffer (short_of_size max_len) msg_id

-- Send(std::string msg, short msg_id): `c_str()` has a zero behind the text.
unfoldable pub send_string : Platform → Session → List ℕ → ℕ → Exec (Session × List Action)
unfolding enqueue
send_string p s msg msg_id = enqueue p s (msg ++ 0 ∷ []) (short_of_size (length msg)) msg_id

-- `front()` and `pop()` of an empty queue are undefined.
unfoldable pub pop : List SendNode → Exec (List SendNode)
pop [] = corrupt
pop (node ∷ que) = ok que

-- HandleWrite(error, shared_self)
unfoldable pub handle_write : Session → Bool → Exec (Session × List Action)
unfolding pop
handle_write s error = elim error [
  | false ↦ (do
    que ← pop s.send_que
    let s' = record s { send_que = que }
    elim que [
      | [] ↦ ok (s', [])
      | node ∷ rest ↦ (do acts ← write_front (node ∷ rest); ok (s', acts))
    ])
  | true ↦ let (s', acts) = close s in ok (s', acts ++ clear_session ∷ [])
]
