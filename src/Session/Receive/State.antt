-- ===== src/Session/Receive/State.antt =====
-- How a session stands for a receiver of `Wire`, and what of its actions the rest of the program
-- can see.
use async_echo_server.Base.{ℕ, ◌+◌, ◌≤◌, ◌<◌, ◌≡◌, true, false, some, List, [], ◌∷◌, length, take}
use async_echo_server.Wire.{Message, Receiver, header, body, refused, failed}
use async_echo_server.MsgNode.{ReciveNode, text, max_length}
use async_echo_server.Session.{
  Session, Action, async_read, async_write, post_msg, close_socket, clear_session,
}

-- A message for the logic layer, a wait for more bytes, the end of the session, or another call.
pub data Effect : Type 0 where
  deliver : Message → Effect
  await : Effect
  drop_session : Effect
  other : Effect

abbrev pub message_of : ReciveNode → Message
message_of r = record { id = r.msg_id; text = text r.node }

abbrev pub effect : Action → Effect
effect async_read = await
effect (async_write bytes) = other
effect (post_msg r) = deliver (message_of r)
effect close_socket = other
effect clear_session = drop_session

-- What a receiver does once the bytes at hand are used up.
abbrev pub settle : Receiver → List Effect
settle (header h) = await ∷ []
settle (body id len text) = await ∷ []
settle refused = drop_session ∷ []
settle failed = []

-- The session is between messages: it has the bytes `h` of a header.
pub record AtHeader (s : Session) (h : List ℕ) : Type 0 where
  pub parse : s.b_head_parse ≡ false
  pub room : length s.buffer ≡ max_length
  pub head_total : s.recv_head_node.total_len ≡ 4
  pub head_room : length s.recv_head_node.chars ≡ 5
  pub cur : s.recv_head_node.cur_len ≡ length h
  pub short : length h < 4
  pub kept : take (length h) s.recv_head_node.chars ≡ h

-- The session is inside a message: its node has the bytes `text`, and room for all.
pub record AtBody (s : Session) (id len : ℕ) (bytes : List ℕ) : Type 0 where
  pub parse : s.b_head_parse ≡ true
  pub room : length s.buffer ≡ max_length
  pub head_total : s.recv_head_node.total_len ≡ 4
  pub head_room : length s.recv_head_node.chars ≡ 5
  pub recv : ReciveNode
  pub held : s.recv_msg_node ≡ some recv
  pub ident : recv.msg_id ≡ id
  pub total : recv.node.total_len ≡ len
  pub bound : len ≤ max_length
  pub node_room : length recv.node.chars ≡ len + 1
  pub cur : recv.node.cur_len ≡ length bytes
  pub short : length bytes < len
  pub kept : take (length bytes) recv.node.chars ≡ bytes

abbrev pub Holds : Session → Receiver → Type 0
Holds s (header h) = AtHeader s h
Holds s (body id len bytes) = AtBody s id len bytes
Holds s refused = Unit
Holds s failed = ⊥
