-- ===== src/Version2/Session/Openings.antt =====
-- The branches of `HandleRead` that read a header, and the node that it opens.
use async_echo_server.Base.{
  ℕ, ◌+◌, ◌-◌, ◌≤◌, ◌<◌, ◌≡◌, ◌∙◌, refl, true, false, some, List, [], ◌∷◌, Exec, ok, threw, corrupt,
  arith, length, take, drop, lt→ltb, le→ltb, get_or, if◌then◌else◌, ◌==◌,
}
use async_echo_server.Platform.{
  Platform, add_size, short_of_size, short_at, short_gt, size_of_short, sub_size, size_of_short_lem,
  add_size_lem, sub_size_lem, is_negative,
}
use async_echo_server.Memory.{
  splice, zeros, new_chars_lem, length-zeros, new_chars, memcpy, memcpy_lem,
}
use async_echo_server.MsgNode.{MsgNode, max_length, copy_in, advance}
use async_echo_server.MsgNode.Laws.{get_short_lem, copy_in_lem, advance_lem, terminate_lem}
use async_echo_server.Session.Receive.Steps.{completed, filled, header_node, length-filled}
use async_echo_server.Version2.{LongWire}
use async_echo_server.Version2.Session.{CSession, async_read_some, clear_session, new_data_node}
use async_echo_server.Version2.Session.Read.{
  Round, returns, begin_message, read_header, read_body, finish_message,
}
use async_echo_server.Version2.Session.State.{Roomy, empty_node}
use async_echo_server.Version2.Session.Steps.{rearm_lem}

abbrev pub data_node : ℕ → MsgNode
data_node len = record { cur_len = 0; total_len = len; chars = zeros (len + 1) }

new_data_node_lem : (len : ℕ) → len < 0x8000 → new_data_node len ≡ ok (data_node len)
unfolding new_data_node
new_data_node_lem len h = rw (new_chars_lem len h)

new_empty_node : new_data_node 0xffff ≡ ok empty_node
unfolding new_data_node new_chars
new_empty_node = refl

copy_in-empty : (src : List ℕ) (c n : ℕ) → 0 < n → copy_in empty_node src c n ≡ corrupt
unfolding copy_in memcpy size_of_short
copy_in-empty src c n pos = ground arith

-- What follows a complete header: `head` is the header node.
abbrev pub dispatch : Platform → LongWire → CSession → MsgNode → ℕ → ℕ → Exec Round
dispatch p l s head c n =
    let s' = record s { recv_head_node = head } in
    let len = short_at p (get_or head.chars 0 0) (get_or head.chars 1 0) in
    if short_gt len max_length
    then ok (returns s' (clear_session ∷ []))
    else begin_message p l s' len c n

module _ (p : Platform) (l : LongWire) (s : CSession) (w : Roomy s) (c n : ℕ)
    (inside : c + n ≤ max_length) where
  pub begin_partial :
      (len : ℕ)
      → len ≤ max_length
      → n < len
      → begin_message p l s len c n
        ≡ ok (
            returns
              (record s {
                recv_msg_node = some (filled (data_node len) s.buffer c n);
                b_head_parse = true;
                buffer = zeros max_length;
              })
              (async_read_some ∷ []))
  unfolding begin_message
  begin_partial len bound short = rw (
    new_data_node_lem len (omega arith),
    size_of_short_lem len (omega arith),
    lt→ltb n len short,
    copy_in_lem (data_node len) s.buffer c n (omega arith) (omega (arith, length-zeros (len + 1)))
        (omega (arith, w.room)),
    advance_lem
        (record (data_node len) { chars = splice (zeros (len + 1)) 0 (take n (drop c s.buffer)) }) n
        (omega arith),
    rearm_lem
        (record s {
          recv_msg_node = some (filled (data_node len) s.buffer c n);
          b_head_parse = true;
        })
        w.room,
  )

  pub begin_full :
      (len : ℕ)
      → len ≤ max_length
      → len ≤ n
      → begin_message p l s len c n
        ≡ finish_message p l s (completed (data_node len) s.buffer c len) (c + len) (n - len)
  unfolding begin_message
  begin_full len bound enough = rw (
    new_data_node_lem len (omega arith),
    size_of_short_lem len (omega arith),
    le→ltb n len enough,
    copy_in_lem (data_node len) s.buffer c len (omega arith) (omega (arith, length-zeros (len + 1)))
        (omega (arith, w.room)),
    advance_lem
        (record (data_node len) { chars = splice (zeros (len + 1)) 0 (take len (drop c s.buffer)) })
        len (omega arith),
    terminate_lem (filled (data_node len) s.buffer c len) (omega arith) (
        omega (
          arith,
          length-zeros (len + 1),
          length-filled (data_node len) s.buffer c len (omega (arith, length-zeros (len + 1)))
              (omega (arith, w.room)),
        )),
    add_size_lem c len (omega arith),
    sub_size_lem n len enough (omega arith),
  )

  pub begin_negative :
      (len : ℕ)
      → is_negative len ≡ true
      → (len == 0xffff) ≡ false
      → begin_message p l s len c n ≡ threw
  unfolding begin_message new_data_node new_chars is_negative
  begin_negative len neg more = ground arith

  -- A length of -1 with more bytes behind it.
  pub begin_overflow : 0 < n → begin_message p l s 0xffff c n ≡ corrupt
  unfolding begin_message size_of_short
  begin_overflow pos = rw (
    new_empty_node,
    lt→ltb n (0xffff + 18446744073709486080) (omega arith),
    copy_in-empty s.buffer c n pos,
  )

  pub body_overflow : 0 < n → read_body p l s empty_node c n ≡ corrupt
  unfolding read_body size_of_short sub_size
  body_overflow pos =
      rw (lt→ltb n 18446744073709551615 (omega arith), copy_in-empty s.buffer c n pos)

  pub read_header_partial :
      n + s.recv_head_node.cur_len < 2
      → read_header p l s c n
        ≡ ok (
            returns
              (record s {
                recv_head_node = filled s.recv_head_node s.buffer c n;
                buffer = zeros max_length;
              })
              (async_read_some ∷ []))
  unfolding read_header
  read_header_partial short = rw (
    size_of_short_lem s.recv_head_node.cur_len (omega arith),
    add_size_lem n s.recv_head_node.cur_len (omega arith),
    lt→ltb (n + s.recv_head_node.cur_len) 2 short,
    copy_in_lem s.recv_head_node s.buffer c n (omega arith) (omega (arith, w.head_room))
        (omega (arith, w.room)),
    advance_lem
        (record s.recv_head_node {
          chars = splice s.recv_head_node.chars s.recv_head_node.cur_len (take n (drop c s.buffer));
        })
        n (omega arith),
    rearm_lem (record s { recv_head_node = filled s.recv_head_node s.buffer c n }) w.room,
  )

  pub read_header_full :
      (k : ℕ)
      → s.recv_head_node.cur_len + k ≡ 2
      → k ≤ n
      → read_header p l s c n
        ≡ dispatch p l s (header_node s.recv_head_node s.buffer c k) (c + k) (n - k)
  unfolding read_header
  read_header_full k fits enough = rw (
    size_of_short_lem cur (omega arith),
    add_size_lem n cur (omega arith),
    le→ltb (n + cur) 2 (omega arith),
    remain,
    copy_in_lem s.recv_head_node s.buffer c k (omega arith) (omega (arith, w.head_room))
        (omega (arith, w.room)),
    get_short_lem p bytes 0 (omega (arith, filled_room)),
    add_size_lem c k (omega arith),
    sub_size_lem n k enough (omega arith),
  )
    where
      cur : ℕ
      cur = s.recv_head_node.cur_len

      bytes : List ℕ
      bytes = (header_node s.recv_head_node s.buffer c k).chars

      remain : sub_size 2 cur ≡ k
      remain = omega (arith, sub_size_lem 2 cur (omega arith) (omega arith))

      filled_room : length bytes ≡ 3
      filled_room =
          length-filled s.recv_head_node s.buffer c k (omega (arith, w.head_room))
            (omega (arith, w.room))
          ∙ w.head_room

-- A copy of no byte, from inside the source.
copy_in-nothing :
    (src : List ℕ) (c : ℕ) → c ≤ length src → copy_in empty_node src c 0 ≡ ok empty_node
unfolding copy_in splice take drop size_of_short
copy_in-nothing src c h = rw (memcpy_lem [] 0 src c 0 (omega arith) (omega arith)) refl

advance-nothing : advance empty_node 0 ≡ empty_node
unfolding advance add_size size_of_short short_of_size
advance-nothing = refl

-- A message of the length -1 whose header ends the chunk: the session waits for its bytes.
pub begin_broken :
    (p : Platform) (l : LongWire) (s : CSession) (c : ℕ)
    → Roomy s
    → c ≤ max_length
    → begin_message p l s 0xffff c 0
      ≡ ok (
          returns
            (record s {
              recv_msg_node = some empty_node;
              b_head_parse = true;
              buffer = zeros max_length;
            })
            (async_read_some ∷ []))
unfolding begin_message size_of_short
begin_broken p l s c w inside = rw (
  new_empty_node,
  copy_in-nothing s.buffer c (omega (arith, w.room)),
  advance-nothing,
  rearm_lem (record s { recv_msg_node = some empty_node; b_head_parse = true }) w.room,
)
