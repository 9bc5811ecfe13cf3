-- ===== src/MultiThread/Session.antt =====
-- Server-version-3-multi-thread/CSession.h, CSession.cpp, MsgNode.h and MsgNode.cpp. The class has the
-- members of version 3, so its state is a `Session`; the handlers differ in that they catch
-- exceptions.
pub mod Try
pub mod Read
pub mod Same
pub mod Frames
pub mod Stranded
pub mod Writes
mod Tests
use async_echo_server.Base.{
  ℕ, ◌+◌, Bool, true, false, none, List, [], ◌∷◌, ◌++◌, Exec, ok, corrupt, ◌>>=◌, ltb, length,
  if◌then◌else◌,
}
use async_echo_server.Platform.{Platform, size_of_short, short_of_size}
use async_echo_server.Memory.{memset, memcpy}
use async_echo_server.MsgNode.{
  ReciveNode, SendNode, new_msg_node, put_short, wire_bytes, head_total_len, head_id_len,
  head_data_len, max_length, max_send_queue,
}
use async_echo_server.Session.{
  Session, Action, async_read, async_write, close_socket, clear_session,
}

-- RecvNode(short max_len, short msg_id)
unfoldable pub new_recv_node : ℕ → ℕ → Exec ReciveNode
new_recv_node max_len msg_id = do
  node ← new_msg_node max_len
  ok (record { node = node; msg_id = msg_id })

-- CSession(io_context, server), whose uuid is drawn by Boost.
unfoldable pub new_session : List ℕ → List ℕ → Exec Session
new_session uuid buffer = do
  head ← new_msg_node head_total_len
  ok (record {
    uuid = uuid;
    buffer = buffer;
    b_close = false;
    send_que = [];
    recv_msg_node = none;
    b_head_parse = false;
    recv_head_node = head;
  })

-- `memset(_data, 0, MAX_LENGTH)` and `async_read_some`.
unfoldable pub rearm : Session → Exec (Session × List Action)
rearm s = do buffer ← memset s.buffer max_length; ok (record s { buffer = buffer }, async_read ∷ [])

-- CSession::Start
unfoldable pub start : Session → Exec (Session × List Action)
unfolding rearm
start s = rearm s

-- CSession::Close
unfoldable pub close : Session → Session × List Action
close s = (record s { b_close = true }, close_socket ∷ [])

-- `async_write` of `_send_que.front()`
unfoldable pub write_front : List SendNode → Exec (List Action)
write_front [] = corrupt
write_front (node ∷ que) = ok (async_write (wire_bytes node) ∷ [])

module _ (p : Platform) where
  -- SendNode(const char *msg, short max_len, short msg_id)
  unfoldable pub new_send_node : List ℕ → ℕ → ℕ → Exec SendNode
  new_send_node msg max_len msg_id = do
    node ← new_msg_node (short_of_size (max_len + head_total_len))
    c₁ ← put_short p node.chars 0 (p.host_to_network_short msg_id)
    c₂ ← put_short p c₁ head_id_len (p.host_to_network_short max_len)
    c₃ ← memcpy c₂ (head_id_len + head_data_len) msg 0 (size_of_short max_len)
    ok (record { node = record node { chars = c₃ }; msg_id = msg_id })

  -- Send(char *msg, short max_length, short msgid): `buffer` is what `msg` points to.
  unfoldable pub send_chars : Session → List ℕ → ℕ → ℕ → Exec (Session × List Action)
  unfolding new_send_node write_front
  send_chars s buffer max_len msgid =
      if ltb max_send_queue (length s.send_que) then ok (s, []) else (do
        node ← new_send_node buffer max_len msgid
        let s' = record s { send_que = s.send_que ++ node ∷ [] }
        if ltb 0 (length s.send_que)
            then ok (s', [])
            else (do acts ← write_front s'.send_que; ok (s', acts)))

  -- Send(std::string msg, short msgid): `c_str()` has a zero behind the text.
  unfoldable pub send_string : Session → List ℕ → ℕ → Exec (Session × List Action)
  unfolding new_send_node write_front
  send_string s msg msgid = if ltb max_send_queue (length s.send_que) then ok (s, []) else (do
    node ← new_send_node (msg ++ 0 ∷ []) (short_of_size (length msg)) msgid
    let s' = record s { send_que = s.send_que ++ node ∷ [] }
    if ltb 0 (length s.send_que)
        then ok (s', [])
        else (do acts ← write_front s'.send_que; ok (s', acts)))

-- HandleWrite(error, shared_self). Nothing in its `try` block throws; `pop()` of an empty queue is
-- undefined.
unfoldable pub handle_write : Session → Bool → Exec (Session × List Action)
unfolding write_front close
handle_write s error = elim error [
  | false ↦ elim s.send_que [
    | [] ↦ corrupt
    | node ∷ que ↦
        let s' = record s { send_que = que } in
        elim que [
          | [] ↦ ok (s', [])
          | next ∷ rest ↦ (do acts ← write_front (next ∷ rest); ok (s', acts))
        ]
  ]
  | true ↦ let (s', acts) = close s in ok (s', acts ++ clear_session ∷ [])
]
