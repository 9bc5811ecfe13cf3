-- ===== src/Session.antt =====
-- Server-version-3/Session.h and Session.cpp: the state of a `CSession`, and what its handlers ask
-- of the rest of the program. `Session.Receive` is the reading side, `Session.Send` the writing one.
pub mod Receive
pub mod Send
pub mod Print
use async_echo_server.Base.{ℕ, Bool, true, false, Option, none, List, [], ◌∷◌, Exec, ok, ◌>>=◌}
use async_echo_server.Memory.{memset}
use async_echo_server.MsgNode.{
  MsgNode, ReciveNode, SendNode, new_msg_node, head_total_len, max_length,
}

-- `buffer` is `_data`; `recv_msg_node` is `none` while the pointer is null. The mutex, the socket
-- and the back pointer to the server carry no state that the code reads: what is asked of them is
-- an `Action`. A received node is never changed once it is posted (the next message is received
-- into a new node), so nodes are values.
pub record Session : Type 0 where
  pub uuid : List ℕ
  pub buffer : List ℕ
  pub b_close : Bool
  pub send_que : List SendNode
  pub recv_msg_node : Option ReciveNode
  pub b_head_parse : Bool
  pub recv_head_node : MsgNode

-- The calls that a handler makes, in their order: `async_read_some` on the whole buffer,
-- `async_write` of these bytes, `PostMsgtoQueue` of a node with this session, `_socket.close()`,
-- and `_server->clear_session(_uuid)`.
pub data Action : Type 0 where
  async_read : Action
  async_write : List ℕ → Action
  post_msg : ReciveNode → Action
  close_socket : Action
  clear_session : Action

-- CSession(io_context, server), whose uuid is drawn by Boost.
unfoldable pub new_session : List ℕ → List ℕ → Exec Session
new_session uuid buffer = do
  head ← new_msg_node head_total_len
  ok (record {
    uuid = uuid;
    buffer = buffer;
    b_close = false;
    send_que = [];
    recv_msg_node = none;
    b_head_parse = false;
    recv_head_node = head;
  })

-- `memset(_data, 0, MAX_LENGTH)` and `async_read_some`, which end every branch that waits for more.
unfoldable pub rearm : Session → Exec (Session × List Action)
rearm s = do buffer ← memset s.buffer max_length; ok (record s { buffer = buffer }, async_read ∷ [])

-- CSession::Start
unfoldable pub start : Session → Exec (Session × List Action)
start s = rearm s

-- CSession::Close
unfoldable pub close : Session → Session × List Action
close s = (record s { b_close = true }, close_socket ∷ [])
