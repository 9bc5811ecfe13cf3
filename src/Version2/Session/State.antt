-- ===== src/Version2/Session/State.antt =====
-- How a session of version 2 stands for a receiver of `Version2.Wire`.
use async_echo_server.Base.{
  ℕ, ◌+◌, ◌≤◌, ◌<◌, ◌≡◌, true, false, some, List, [], ◌∷◌, ◌++◌, map, length, take, drop, Exec, ok,
  threw, corrupt,
}
use async_echo_server.Base.Runs.{ahead}
use async_echo_server.Platform.{Platform}
use async_echo_server.MsgNode.{MsgNode, max_length}
use async_echo_server.Version2.Wire.{
  Receiver, header, body, broken, refused, failed, Reception, absorb, feed,
}
use async_echo_server.Version2.Replies.{replies}
use async_echo_server.Version2.Session.{
  CSession, Request, async_read_some, async_write, clear_session,
}
use async_echo_server.Version2.Session.Read.{Round, returns, continues}

-- What a receiver does once the bytes at hand are used up.
abbrev pub settle : Receiver → List Request
settle (header h) = async_read_some ∷ []
settle (body len text) = async_read_some ∷ []
settle broken = async_read_some ∷ []
settle refused = clear_session ∷ []
settle failed = []

-- What stays true of a session's buffers in every state that waits.
pub record Roomy (s : CSession) : Type 0 where
  pub room : length s.buffer ≡ max_length
  pub head_total : s.recv_head_node.total_len ≡ 2
  pub head_room : length s.recv_head_node.chars ≡ 3

-- The session is between messages: it has the bytes `h` of a header.
pub record AtHeader (s : CSession) (h : List ℕ) : Type 0 where
  pub parse : s.b_head_parse ≡ false
  pub roomy : Roomy s
  pub cur : s.recv_head_node.cur_len ≡ length h
  pub short : length h < 2
  pub kept : take (length h) s.recv_head_node.chars ≡ h

-- A node that has the bytes `text` of a message, and room for all of it.
pub record NodeHolds (recv : MsgNode) (len : ℕ) (text : List ℕ) : Type 0 where
  pub total : recv.total_len ≡ len
  pub bound : len ≤ max_length
  pub node_room : length recv.chars ≡ len + 1
  pub cur : recv.cur_len ≡ length text
  pub kept : take (length text) recv.chars ≡ text

-- The session is inside a message.
pub record AtBody (s : CSession) (len : ℕ) (text : List ℕ) : Type 0 where
  pub parse : s.b_head_parse ≡ true
  pub roomy : Roomy s
  pub recv : MsgNode
  pub held : s.recv_msg_node ≡ some recv
  pub holds : NodeHolds recv len text
  pub short : length text < len

-- The node for a message of the length -1, which has no byte.
abbrev pub empty_node : MsgNode
empty_node = record { cur_len = 0; total_len = 0xffff; chars = [] }

pub record AtBroken (s : CSession) : Type 0 where
  pub parse : s.b_head_parse ≡ true
  pub roomy : Roomy s
  pub held : s.recv_msg_node ≡ some empty_node

abbrev pub Holds : CSession → Receiver → Type 0
Holds s (header h) = AtHeader s h
Holds s (body len text) = AtBody s len text
Holds s broken = AtBroken s
Holds s refused = Unit
Holds s failed = ⊥

-- From the queue `que` on, the texts were sent back, and the session has come to the receiver's state.
abbrev pub Settled : List MsgNode → Reception → CSession → List Request → Type 0
Settled que r s acts =
    (s.send_que ≡ (replies que r.1).0)
    × (acts ≡ map async_write (replies que r.1).1 ++ settle r.0)
    × Holds s r.0

-- The bytes of the chunk that are still to be used.
abbrev pub window : CSession → ℕ → ℕ → List ℕ
window s c n = take n (drop c s.buffer)

-- With the `n` bytes of the buffer at `c` before it, the receiver comes to `r`.
abbrev pub RoundMeets : Platform → List MsgNode → List ℕ → ℕ → ℕ → Reception → Exec Round → Type 0
RoundMeets p que buffer c n r (ok (returns s' acts)) = Settled que r s' acts
RoundMeets p que buffer c n r (ok (continues s' c' n' acts)) =
    (ms : List (List ℕ)) × (s'.send_que ≡ (replies que ms).0)
    × (acts ≡ map async_write (replies que ms).1)
    × AtHeader s' []
    × (s'.buffer ≡ buffer)
    × (0 < n')
    × (n' < n)
    × (c' + n' ≡ c + n)
    × (r ≡ ahead (feed p) ms (absorb p (header []) (take n' (drop c' buffer))))
RoundMeets p que buffer c n r threw = r ≡ (failed, [])
RoundMeets p que buffer c n r corrupt = r ≡ (failed, [])
