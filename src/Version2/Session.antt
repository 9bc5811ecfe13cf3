-- ===== src/Version2/Session.antt =====
-- Server/Session.h and Server/Session.cpp: the state of a `CSession` of version 2 and the handlers
-- other than HandleRead, which is `Version2.Session.Read`.
pub mod Read
pub mod State
pub mod Steps
pub mod Openings
pub mod Finish
pub mod Bodies
pub mod Dispatch
pub mod Headers
pub mod Refine
pub mod History
pub mod Order
pub mod Echo
pub mod Connect
pub mod Asks
pub mod Settles
mod Tests
use async_echo_server.Base.{
  ℕ, Bool, true, false, Option, none, List, [], ◌∷◌, ◌++◌, map, Exec, ok, corrupt, ◌>>=◌, take,
}
use async_echo_server.Platform.{size_of_short}
use async_echo_server.Memory.{memset, new_chars}
use async_echo_server.MsgNode.{MsgNode, max_length}
use async_echo_server.Version2.{LongWire, head_length, send}

-- `buffer` is `_data`; `recv_msg_node` is `none` while the pointer is null.
pub record CSession : Type 0 where
  pub uuid : List ℕ
  pub buffer : List ℕ
  pub b_close : Bool
  pub send_que : List MsgNode
  pub recv_msg_node : Option MsgNode
  pub b_head_parse : Bool
  pub recv_head_node : MsgNode

-- The calls that a handler makes, in their order.
pub data Request : Type 0 where
  async_read_some : Request
  async_write : List ℕ → Request
  close_socket : Request
  clear_session : Request

-- MsgNode(short max_len), which writes no zero behind the array.
unfoldable pub new_data_node : ℕ → Exec MsgNode
new_data_node max_len = do
  chars ← new_chars max_len
  ok (record { cur_len = 0; total_len = max_len; chars = chars })

-- CSession(io_context, server), whose uuid is drawn by Boost.
unfoldable pub new_session : List ℕ → List ℕ → Exec CSession
unfolding new_data_node
new_session uuid buffer = do
  head ← new_data_node head_length
  ok (record {
    uuid = uuid;
    buffer = buffer;
    b_close = false;
    send_que = [];
    recv_msg_node = none;
    b_head_parse = false;
    recv_head_node = head;
  })

-- `memset(_data, 0, MAX_LENGTH)` and `async_read_some`.
unfoldable pub rearm : CSession → Exec (CSession × List Request)
rearm s = do
  buffer ← memset s.buffer max_length
  ok (record s { buffer = buffer }, async_read_some ∷ [])

-- CSession::Start
unfoldable pub start : CSession → Exec (CSession × List Request)
unfolding rearm
start s = rearm s

-- CSession::Close
unfoldable pub close : CSession → CSession × List Request
close s = (record s { b_close = true }, close_socket ∷ [])

-- CSession::Send, on the queue of this session.
unfoldable pub send_chars : LongWire → CSession → List ℕ → ℕ → Exec (CSession × List Request)
unfolding send
send_chars l s msg max_len = do
  q ← send l s.send_que msg max_len
  ok (record s { send_que = q.0 }, map async_write q.1)

-- HandleWrite(error, shared_self). `front()` of an empty queue is undefined.
unfoldable pub handle_write : CSession → Bool → Exec (CSession × List Request)
unfolding close
handle_write s error = elim error [
  | false ↦ elim s.send_que [
    | [] ↦ corrupt
    | node ∷ que ↦
        let s' = record s { send_que = que } in
        elim que [
          | [] ↦ ok (s', [])
          | next ∷ rest ↦ ok (s', async_write (take (size_of_short next.total_len) next.chars) ∷ [])
        ]
  ]
  | true ↦ let (s', acts) = close s in ok (s', acts ++ clear_session ∷ [])
]
