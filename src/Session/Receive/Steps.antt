-- ===== src/Session/Receive/Steps.antt =====
-- Each branch of a round of `HandleRead`, inside the bounds of its buffers.
use async_echo_server.Base.{
  ℕ, ◌+◌, ◌-◌, ◌≤◌, ◌<◌, ◌≡◌, ◌∙◌, false, some, List, [], ◌∷◌, ◌++◌, Exec, ok, arith, length, take,
  drop, lt→ltb, le→ltb, eq_false, get_or, if◌then◌else◌, length-append, ap,
}
use async_echo_server.Platform.{
  Platform, short_at, short_gt, sub_size, size_of_short_lem, add_size_lem, sub_size_lem,
}
use async_echo_server.Memory.{
  take-splice, take-splice_before, zeros, splice, memset_all, length-splice, length-window,
}
use async_echo_server.MsgNode.{text, MsgNode, ReciveNode, max_length}
use async_echo_server.MsgNode.Laws.{get_short_lem, copy_in_lem, advance_lem, clear_lem}
use async_echo_server.Session.{Session, async_read, post_msg, clear_session, rearm}
use async_echo_server.Session.Receive.{
  Round, returns, continues, round, read_header, finish_message, begin_message,
}

pub rearm_lem :
    (s : Session)
    → length s.buffer ≡ max_length
    → rearm s ≡ ok (record s { buffer = zeros max_length }, async_read ∷ [])
unfolding rearm
rearm_lem s h = rw (memset_all s.buffer max_length h)

-- The node after `n` more bytes have been copied in.
abbrev pub filled : MsgNode → List ℕ → ℕ → ℕ → MsgNode
filled node src from n = record node {
  cur_len = node.cur_len + n;
  chars = splice node.chars node.cur_len (take n (drop from src));
}

pub round_header :
    (p : Platform) (s : Session) (c n : ℕ)
    → s.b_head_parse ≡ false
    → round p s c n ≡ read_header p s c n
unfolding round
round_header p s c n e = ground arith

pub read_header_partial :
    (p : Platform) (s : Session) (c n : ℕ)
    → length s.buffer ≡ max_length
    → length s.recv_head_node.chars ≡ 5
    → n + s.recv_head_node.cur_len < 4
    → c + n ≤ max_length
    → read_header p s c n
      ≡ ok (
          returns
            (record s {
              recv_head_node = filled s.recv_head_node s.buffer c n;
              buffer = zeros max_length;
            })
            (async_read ∷ []))
unfolding read_header
read_header_partial p s c n room head short inside = rw (
  size_of_short_lem s.recv_head_node.cur_len (omega arith),
  add_size_lem n s.recv_head_node.cur_len (omega arith),
  lt→ltb (n + s.recv_head_node.cur_len) 4 short,
  copy_in_lem s.recv_head_node s.buffer c n (omega arith) (omega arith) (omega arith),
  advance_lem
      (record s.recv_head_node {
        chars = splice s.recv_head_node.chars s.recv_head_node.cur_len (take n (drop c s.buffer));
      })
      n (omega arith),
  rearm_lem (record s { recv_head_node = filled s.recv_head_node s.buffer c n }) room,
)

abbrev pub cleared : MsgNode → MsgNode
cleared node = record node {
  cur_len = 0;
  chars = zeros node.total_len ++ drop node.total_len node.chars;
}

-- The node once its last `n` bytes have been copied in and the zero written behind them.
abbrev pub completed : MsgNode → List ℕ → ℕ → ℕ → MsgNode
completed node src from n =
    let full = filled node src from n in
    record full { chars = splice full.chars full.total_len (0 ∷ []) }

pub length-filled :
    (node : MsgNode) (src : List ℕ) (c n : ℕ)
    → node.cur_len + n ≤ length node.chars
    → c + n ≤ length src
    → length (filled node src c n).chars ≡ length node.chars
length-filled node src c n fits inside =
    length-splice node.chars node.cur_len (take n (drop c src))
      (omega (arith, length-window src c n inside))

-- A node that held `bytes` holds those and the new ones.
pub filled-kept :
    (node : MsgNode) (src : List ℕ) (c n : ℕ) (bytes : List ℕ)
    → node.cur_len ≡ length bytes
    → take (length bytes) node.chars ≡ bytes
    → node.cur_len + n ≤ length node.chars
    → c + n ≤ length src
    → take (length (bytes ++ take n (drop c src))) (filled node src c n).chars
      ≡ bytes ++ take n (drop c src)
filled-kept node src c n bytes cur kept fits inside =
    take-splice node.chars node.cur_len (length (bytes ++ take n (drop c src)))
      (take n (drop c src)) (omega arith) (omega (arith, length-append bytes (take n (drop c src))))
    ∙ ap (λ k. k ++ take n (drop c src)) (ap (λ k. take k node.chars) cur ∙ kept)

abbrev pub finished : Session → ReciveNode → Session
finished s recv = record s {
  recv_msg_node = some recv;
  b_head_parse = false;
  recv_head_node = cleared s.recv_head_node;
}

pub finish_last :
    (s : Session) (recv : ReciveNode) (c : ℕ)
    → length s.buffer ≡ max_length
    → s.recv_head_node.total_len ≤ 4
    → length s.recv_head_node.chars ≡ 5
    → finish_message s recv c 0
      ≡ ok (
          returns
            (record (finished s recv) { buffer = zeros max_length })
            (post_msg recv ∷ async_read ∷ []))
unfolding finish_message
finish_last s recv c room total head =
    rw (clear_lem s.recv_head_node (omega arith) (omega arith), rearm_lem (finished s recv) room)

pub finish_more :
    (s : Session) (recv : ReciveNode) (c n : ℕ)
    → s.recv_head_node.total_len ≤ 4
    → length s.recv_head_node.chars ≡ 5
    → 0 < n
    → finish_message s recv c n ≡ ok (continues (finished s recv) c n (post_msg recv ∷ []))
unfolding finish_message
finish_more s recv c n total head more =
    rw (clear_lem s.recv_head_node (omega arith) (omega arith), eq_false n 0 (omega arith))

-- What follows a complete header: `head` is the header node.
abbrev pub dispatch : Platform → Session → MsgNode → ℕ → ℕ → Exec Round
dispatch p s head c n =
    let s' = record s { recv_head_node = head } in
    let id = short_at p (get_or head.chars 0 0) (get_or head.chars 1 0) in
    let len = short_at p (get_or head.chars 2 0) (get_or head.chars 3 0) in
    if short_gt id max_length
    then ok (returns s' (clear_session ∷ []))
    else if short_gt len max_length
    then ok (returns s' (clear_session ∷ []))
    else begin_message s' id len c n

-- The header node with its last bytes; its length is not updated.
abbrev pub header_node : MsgNode → List ℕ → ℕ → ℕ → MsgNode
header_node node src from n = record node {
  chars = splice node.chars node.cur_len (take n (drop from src));
}

pub read_header_full :
    (p : Platform) (s : Session) (c n k : ℕ)
    → length s.buffer ≡ max_length
    → length s.recv_head_node.chars ≡ 5
    → s.recv_head_node.cur_len + k ≡ 4
    → k ≤ n
    → c + n ≤ max_length
    → read_header p s c n ≡ dispatch p s (header_node s.recv_head_node s.buffer c k) (c + k) (n - k)
unfolding read_header
read_header_full p s c n k room head fits enough inside = rw (
  size_of_short_lem cur (omega arith),
  add_size_lem n cur (omega arith),
  le→ltb (n + cur) 4 (omega arith),
  remain,
  copy_in_lem s.recv_head_node s.buffer c k (omega arith) (omega arith) (omega arith),
  get_short_lem p bytes 0 (omega (arith, filled_room)),
  get_short_lem p bytes 2 (omega (arith, filled_room)),
  add_size_lem c k (omega arith),
  sub_size_lem n k enough (omega arith),
)
  where
    cur : ℕ
    cur = s.recv_head_node.cur_len

    bytes : List ℕ
    bytes = (header_node s.recv_head_node s.buffer c k).chars

    remain : sub_size 4 cur ≡ k
    remain = omega (arith, sub_size_lem 4 cur (omega arith) (omega arith))

    filled_room : length bytes ≡ 5
    filled_room = length-filled s.recv_head_node s.buffer c k (omega arith) (omega arith) ∙ head

-- A node that is full has the text that was received, without the zero behind it.
pub text-completed :
    (node : MsgNode) (src : List ℕ) (c n : ℕ) (bytes : List ℕ)
    → node.cur_len ≡ length bytes
    → take (length bytes) node.chars ≡ bytes
    → node.cur_len + n ≡ node.total_len
    → node.total_len ≤ max_length
    → node.total_len ≤ length node.chars
    → c + n ≤ length src
    → text (completed node src c n) ≡ bytes ++ take n (drop c src)
unfolding text
text-completed node src c n bytes cur kept fits bound room inside =
    ap (λ k. take k (completed node src c n).chars)
      (size_of_short_lem (node.cur_len + n) (omega arith) ∙ fits)
    ∙ take-splice_before (filled node src c n).chars node.total_len (0 ∷ [])
        (omega (arith, length-filled node src c n (omega arith) inside))
    ∙ ap (λ k. take k (filled node src c n).chars)
        (omega (arith, length-append bytes (take n (drop c src)), length-window src c n inside))
    ∙ filled-kept node src c n bytes cur kept (omega arith) inside
