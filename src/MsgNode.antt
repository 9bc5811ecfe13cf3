-- ===== src/MsgNode.antt =====
-- Server-version-3/MsgNode.h and MsgNode.cpp: the buffers that hold a header, a message that is
-- being received and a frame that is being sent.
pub mod Laws
pub mod Encode
mod Tests
use async_echo_server.Base.{
  ℕ, ◌+◌, ◌*◌, ◌≡◌, List, [], ◌∷◌, ◌++◌, Exec, ok, corrupt, ◌>>=◌, ltb, leb, length, get_or,
  if◌then◌else◌, ◌&&◌, take,
}
use async_echo_server.Platform.{Platform, size_of_short, short_of_size, add_size}
use async_echo_server.Memory.{memset, memcpy, put_char, new_chars}

-- const.h
abbrev pub head_total_len : ℕ
head_total_len = 4

abbrev pub head_id_len : ℕ
head_id_len = 2

abbrev pub head_data_len : ℕ
head_data_len = 2

abbrev pub max_length : ℕ
max_length = 1024 * 2

abbrev pub max_send_queue : ℕ
max_send_queue = 1000

abbrev pub msg_hello_word : ℕ
msg_hello_word = 1001

-- The two lengths are `short`s; `chars` is the array behind `_data`.
pub record MsgNode : Type 0 where
  pub cur_len : ℕ
  pub total_len : ℕ
  pub chars : List ℕ

-- MsgNode(short max_len)
unfoldable pub new_msg_node : ℕ → Exec MsgNode
new_msg_node max_len = do
  chars ← new_chars max_len
  ended ← put_char chars (size_of_short max_len) 0
  ok (record { cur_len = 0; total_len = max_len; chars = ended })

-- MsgNode::Clear
unfoldable pub clear : MsgNode → Exec MsgNode
clear node = do
  chars ← memset node.chars (size_of_short node.total_len)
  ok (record node { chars = chars; cur_len = 0 })

-- `node->_data[node->_total_len] = '\0'`
unfoldable pub terminate : MsgNode → Exec MsgNode
terminate node = do
  chars ← put_char node.chars (size_of_short node.total_len) 0
  ok (record node { chars = chars })

-- `memcpy(node->_data + node->_cur_len, src + from, n)`, which leaves the lengths alone.
unfoldable pub copy_in : MsgNode → List ℕ → ℕ → ℕ → Exec MsgNode
copy_in node src from n = do
  chars ← memcpy node.chars (size_of_short node.cur_len) src from n
  ok (record node { chars = chars })

-- `node->_cur_len += n`
unfoldable pub advance : MsgNode → ℕ → MsgNode
advance node n = record node { cur_len = short_of_size (add_size (size_of_short node.cur_len) n) }

pub record ReciveNode : Type 0 where
  pub node : MsgNode
  pub msg_id : ℕ

-- ReciveNode(short max_len, short msg_id)
unfoldable pub new_recive_node : ℕ → ℕ → Exec ReciveNode
new_recive_node max_len msg_id = do
  node ← new_msg_node max_len
  ok (record { node = node; msg_id = msg_id })

pub record SendNode : Type 0 where
  pub node : MsgNode
  pub msg_id : ℕ

module _ (p : Platform) where
  -- memcpy(dst + off, &w, 2) for a `short` w
  unfoldable pub put_short : List ℕ → ℕ → ℕ → Exec (List ℕ)
  put_short dst off w = memcpy dst off ((p.store w).0 ∷ (p.store w).1 ∷ []) 0 2

  -- memcpy(&w, src + off, 2) for a `short` w
  unfoldable pub get_short : List ℕ → ℕ → Exec ℕ
  get_short src off =
      if ltb (off + 1) (length src)
      then ok (p.load (get_or src off 0) (get_or src (off + 1) 0))
      else corrupt

  -- SendNode(const char *msg, short max_len, short msg_id)
  unfoldable pub new_send_node : List ℕ → ℕ → ℕ → Exec SendNode
  new_send_node msg max_len msg_id = do
    node ← new_msg_node (short_of_size (max_len + head_total_len))
    c₁ ← put_short node.chars 0 (p.host_to_network_short msg_id)
    c₂ ← put_short c₁ head_id_len (p.host_to_network_short max_len)
    c₃ ← memcpy c₂ head_total_len msg 0 (size_of_short max_len)
    ok (record { node = record node { chars = c₃ }; msg_id = msg_id })

-- `std::string(node->_data, node->_cur_len)`: the bytes received, as the logic layer reads them.
unfoldable pub text : MsgNode → List ℕ
text node = take (size_of_short node.cur_len) node.chars

-- `boost::asio::buffer(node->_data, node->_total_len)`: the bytes that are put on the wire.
unfoldable pub wire_bytes : SendNode → List ℕ
wire_bytes m = take (size_of_short m.node.total_len) m.node.chars
