-- ===== src/Version2.antt =====
-- Server/Session.h and Server/Session.cpp (version 2): frames of a length and a text, the queue of
-- frames, and the session.
pub mod Frame
pub mod Wire
pub mod Replies
pub mod Texts
pub mod Session
pub mod Examples
pub mod Server
mod Tests
use async_echo_server.Base.{
  ℕ, ◌+◌, ◌-◌, ◌/◌, ◌%◌, ◌^◌, ◌<◌, ◌≡◌, Bool, true, false, List, [], ◌∷◌, ◌++◌, Exec, ok, corrupt,
  ◌>>=◌, ltb, length, take, if◌then◌else◌,
}
use async_echo_server.Platform.{size_of_short, short_of_size}
use async_echo_server.Memory.{memcpy, put_char, new_chars}
use async_echo_server.MsgNode.{MsgNode}

abbrev pub head_length : ℕ
head_length = 2

abbrev pub max_send_queue : ℕ
max_send_queue = 1000

-- The bytes of an `int` in memory after `boost::asio::detail::socket_ops::host_to_network_long`: network
-- order is the high byte first.
pub record LongWire : Type 0 where
  pub network_long : ℕ → List ℕ
  pub network_long-bytes :
      (n : ℕ)
      → n < 2 ^ 32
      → network_long n ≡ n / 2 ^ 24 ∷ n / 2 ^ 16 % 256 ∷ n / 2 ^ 8 % 256 ∷ n % 256 ∷ []

-- The conversion of a `short` to an `int` copies the sign.
unfoldable pub int_of_short : ℕ → ℕ
int_of_short w = if ltb w 0x8000 then w else w + (2 ^ 32 - 2 ^ 16)

module _ (l : LongWire) where
  -- MsgNode(char *msg, short max_len)
  unfoldable pub new_frame_node : List ℕ → ℕ → Exec MsgNode
  unfolding int_of_short
  new_frame_node msg max_len =
      let total_len = short_of_size (max_len + head_length) in
      do
        chars ← new_chars total_len
        c₁ ← memcpy chars 0 (l.network_long (int_of_short max_len)) 0 head_length
        c₂ ← memcpy c₁ head_length msg 0 (size_of_short max_len)
        c₃ ← put_char c₂ (size_of_short total_len) 0
        ok (record { cur_len = 0; total_len = total_len; chars = c₃ })

  -- Send(char *msg, int max_length): the queue, and what is written at once.
  unfoldable pub send : List MsgNode → List ℕ → ℕ → Exec (List MsgNode × List (List ℕ))
  unfolding new_frame_node
  send que msg max_len = if ltb max_send_queue (length que) then ok (que, []) else (do
    node ← new_frame_node msg (short_of_size max_len)
    let que' = que ++ node ∷ []
    if ltb 0 (length que)
        then ok (que', [])
        else ok (que', take (size_of_short node.total_len) node.chars ∷ []))
