-- ===== src/MsgNode/Laws.antt =====
-- What the node operations do inside their bounds, and where a node cannot be made.
use async_echo_server.Base.{
  ℕ, ◌+◌, ◌≤◌, ◌<◌, ◌≡◌, ◌⊎◌, inl, inr, true, List, [], ◌∷◌, ◌++◌, ok, threw, corrupt, arith,
  length, take, drop, get_or, lt→ltb, Bool-cases, ◌==◌,
}
use async_echo_server.Platform.{
  Platform, size_of_short_lem, short_of_size_lem, add_size_lem, is_negative,
}
use async_echo_server.Memory.{
  zeros, splice, memcpy_lem, put_char_lem, new_chars_lem, new_chars, put_char, length-zeros,
  length-splice, memset_lem,
}
use async_echo_server.MsgNode.{MsgNode, new_msg_node, clear, terminate, copy_in, advance, get_short}

pub copy_in_lem :
    (node : MsgNode) (src : List ℕ) (from n : ℕ)
    → node.cur_len < 0x8000
    → node.cur_len + n ≤ length node.chars
    → from + n ≤ length src
    → copy_in node src from n
      ≡ ok (record node { chars = splice node.chars node.cur_len (take n (drop from src)) })
unfolding copy_in
copy_in_lem node src from n small h k =
    rw (size_of_short_lem node.cur_len small, memcpy_lem node.chars node.cur_len src from n h k)

pub advance_lem :
    (node : MsgNode) (n : ℕ)
    → node.cur_len + n < 0x8000
    → advance node n ≡ record node { cur_len = node.cur_len + n }
unfolding advance
advance_lem node n h = rw (
  size_of_short_lem node.cur_len (omega arith),
  add_size_lem node.cur_len n (omega arith),
  short_of_size_lem (node.cur_len + n) (omega arith),
)

pub terminate_lem :
    (node : MsgNode)
    → node.total_len < 0x8000
    → node.total_len < length node.chars
    → terminate node ≡ ok (record node { chars = splice node.chars node.total_len (0 ∷ []) })
unfolding terminate
terminate_lem node small h =
    rw (size_of_short_lem node.total_len small, put_char_lem node.chars node.total_len 0 h)

pub clear_lem :
    (node : MsgNode)
    → node.total_len < 0x8000
    → node.total_len ≤ length node.chars
    → clear node
      ≡ ok (record node {
        cur_len = 0;
        chars = zeros node.total_len ++ drop node.total_len node.chars;
      })
unfolding clear
clear_lem node small h =
    rw (size_of_short_lem node.total_len small, memset_lem node.chars node.total_len h)

abbrev pub fresh_node : ℕ → MsgNode
fresh_node len = record {
  cur_len = 0;
  total_len = len;
  chars = splice (zeros (len + 1)) len (0 ∷ []);
}

-- A node for a length that is not negative.
pub new_msg_node_lem : (len : ℕ) → len < 0x8000 → new_msg_node len ≡ ok (fresh_node len)
unfolding new_msg_node
new_msg_node_lem len h = rw (
  new_chars_lem len h,
  size_of_short_lem len h,
  put_char_lem (zeros (len + 1)) len 0 (omega (arith, length-zeros (len + 1))),
)

pub length-fresh_node : (len : ℕ) → length (fresh_node len).chars ≡ len + 1
length-fresh_node len =
    omega (arith, length-zeros (len + 1), length-splice (zeros (len + 1)) len (0 ∷ []))

-- No node can be made for a negative length.
pub new_msg_node-negative :
    (len : ℕ) → is_negative len ≡ true → (new_msg_node len ≡ threw) ⊎ (new_msg_node len ≡ corrupt)
unfolding new_msg_node new_chars is_negative put_char
new_msg_node-negative len h = elim (Bool-cases (len == 0xffff)) [
  | inl e ↦ inr (ground arith)
  | inr e ↦ inl (ground arith)
]

pub get_short_lem :
    (p : Platform) (src : List ℕ) (off : ℕ)
    → off + 1 < length src
    → get_short p src off ≡ ok (p.load (get_or src off 0) (get_or src (off + 1) 0))
unfolding get_short
get_short_lem p src off h = rw (lt→ltb (off + 1) (length src) h)
