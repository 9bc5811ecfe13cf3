-- ===== src/Session/Receive/Messages.antt =====
-- The branches of `HandleRead` that put bytes into a message, inside the bounds of its buffers.
use async_echo_server.Base.{
  ℕ, ◌+◌, ◌-◌, ◌≤◌, ◌<◌, ◌≡◌, ◌⊎◌, inl, inr, true, some, [], ◌∷◌, ok, threw, corrupt, arith, length,
  take, drop, lt→ltb, le→ltb,
}
use async_echo_server.Platform.{
  is_negative, size_of_short, sub_size, size_of_short_lem, add_size_lem, sub_size_lem,
}
use async_echo_server.Memory.{zeros, splice}
use async_echo_server.MsgNode.{ReciveNode, new_recive_node, max_length}
use async_echo_server.MsgNode.Laws.{
  copy_in_lem, advance_lem, terminate_lem, fresh_node, new_msg_node_lem, length-fresh_node,
  new_msg_node-negative,
}
use async_echo_server.Session.{Session, async_read}
use async_echo_server.Session.Receive.{returns, read_body, finish_message, begin_message}
use async_echo_server.Session.Receive.Steps.{rearm_lem, filled, completed, length-filled}

module _ (s : Session) (c n : ℕ) (room : length s.buffer ≡ max_length)
    (inside : c + n ≤ max_length) where
  pub body_partial :
      (recv : ReciveNode)
      → recv.node.total_len ≤ max_length
      → recv.node.cur_len + n < recv.node.total_len
      → length recv.node.chars ≡ recv.node.total_len + 1
      → read_body s recv c n
        ≡ ok (
            returns
              (record s {
                recv_msg_node = some (record recv { node = filled recv.node s.buffer c n });
                buffer = zeros max_length;
              })
              (async_read ∷ []))
  unfolding read_body
  body_partial recv bound short node_room = rw (
    size_of_short_lem recv.node.total_len (omega arith),
    size_of_short_lem recv.node.cur_len (omega arith),
    sub_size_lem recv.node.total_len recv.node.cur_len (omega arith) (omega arith),
    lt→ltb n (recv.node.total_len - recv.node.cur_len) (omega arith),
    copy_in_lem recv.node s.buffer c n (omega arith) (omega arith) (omega arith),
    advance_lem
        (record recv.node {
          chars = splice recv.node.chars recv.node.cur_len (take n (drop c s.buffer));
        })
        n (omega arith),
    rearm_lem
        (record s { recv_msg_node = some (record recv { node = filled recv.node s.buffer c n }) })
        room,
  )

  pub body_full :
      (recv : ReciveNode) (k : ℕ)
      → recv.node.total_len ≤ max_length
      → recv.node.cur_len + k ≡ recv.node.total_len
      → k ≤ n
      → length recv.node.chars ≡ recv.node.total_len + 1
      → read_body s recv c n
        ≡ finish_message s (record recv { node = completed recv.node s.buffer c k }) (c + k) (n - k)
  unfolding read_body
  body_full recv k bound fits enough node_room = rw (
    remain,
    le→ltb n k enough,
    copy_in_lem recv.node s.buffer c k (omega arith) (omega arith) (omega arith),
    advance_lem
        (record recv.node {
          chars = splice recv.node.chars recv.node.cur_len (take k (drop c s.buffer));
        })
        k (omega arith),
    terminate_lem (filled recv.node s.buffer c k) (omega arith)
        (omega (arith, length-filled recv.node s.buffer c k (omega arith) (omega arith))),
    add_size_lem c k (omega arith),
    sub_size_lem n k enough (omega arith),
  )
    where
      remain : sub_size (size_of_short recv.node.total_len) (size_of_short recv.node.cur_len) ≡ k
      remain =
          rw
            (
              size_of_short_lem recv.node.total_len (omega arith),
              size_of_short_lem recv.node.cur_len (omega arith),
            )
            (omega (
              arith,
              sub_size_lem recv.node.total_len recv.node.cur_len (omega arith) (omega arith),
            ))

  pub begin_partial :
      (id len : ℕ)
      → len ≤ max_length
      → n < len
      → begin_message s id len c n
        ≡ ok (
            returns
              (record s {
                recv_msg_node =
                    some (record { node = filled (fresh_node len) s.buffer c n; msg_id = id });
                b_head_parse = true;
                buffer = zeros max_length;
              })
              (async_read ∷ []))
  unfolding begin_message new_recive_node
  begin_partial id len bound short = rw (
    new_msg_node_lem len (omega arith),
    size_of_short_lem len (omega arith),
    lt→ltb n len short,
    copy_in_lem (fresh_node len) s.buffer c n (omega arith) (omega (arith, length-fresh_node len))
        (omega arith),
    advance_lem
        (record (fresh_node len) {
          chars = splice (fresh_node len).chars 0 (take n (drop c s.buffer));
        })
        n (omega arith),
    rearm_lem
        (record s {
          recv_msg_node =
              some (record { node = filled (fresh_node len) s.buffer c n; msg_id = id });
          b_head_parse = true;
        })
        room,
  )

  pub begin_full :
      (id len : ℕ)
      → len ≤ max_length
      → len ≤ n
      → begin_message s id len c n
        ≡ finish_message s
            (record { node = completed (fresh_node len) s.buffer c len; msg_id = id })
            (c + len)
            (n - len)
  unfolding begin_message new_recive_node
  begin_full id len bound enough = rw (
    new_msg_node_lem len (omega arith),
    size_of_short_lem len (omega arith),
    le→ltb n len enough,
    copy_in_lem (fresh_node len) s.buffer c len (omega arith) (omega (arith, length-fresh_node len))
        (omega arith),
    advance_lem
        (record (fresh_node len) {
          chars = splice (fresh_node len).chars 0 (take len (drop c s.buffer));
        })
        len (omega arith),
    terminate_lem (filled (fresh_node len) s.buffer c len) (omega arith) (
        omega (
          arith,
          length-fresh_node len,
          length-filled (fresh_node len) s.buffer c len (omega (arith, length-fresh_node len))
              (omega arith),
        )),
    add_size_lem c len (omega arith),
    sub_size_lem n len enough (omega arith),
  )

  pub begin_negative :
      (id len : ℕ)
      → is_negative len ≡ true
      → (begin_message s id len c n ≡ threw) ⊎ (begin_message s id len c n ≡ corrupt)
  unfolding begin_message new_recive_node
  begin_negative id len h = elim (new_msg_node-negative len h) [
    | inl e ↦ inl (rw e)
    | inr e ↦ inr (rw e)
  ]
