-- ===== src/Version2/Session/Steps.antt =====
-- Each branch of a round of `HandleRead`, inside the bounds of its buffers.
use async_echo_server.Base.{
  ℕ, ◌+◌, ◌-◌, ◌≤◌, ◌<◌, ◌≡◌, false, some, List, [], ◌∷◌, ◌++◌, map, ok, arith, length, take, drop,
  lt→ltb, le→ltb, eq_false,
}
use async_echo_server.Platform.{
  Platform, size_of_short, sub_size, size_of_short_lem, add_size_lem, sub_size_lem,
}
use async_echo_server.Memory.{splice, zeros, memset_all}
use async_echo_server.MsgNode.{MsgNode, max_length}
use async_echo_server.MsgNode.Laws.{copy_in_lem, advance_lem, clear_lem, terminate_lem}
use async_echo_server.Session.Receive.Steps.{filled, completed, cleared, length-filled}
use async_echo_server.Version2.{LongWire, int_of_short}
use async_echo_server.Version2.Replies.{reply, send-reply}
use async_echo_server.Version2.Session.{CSession, async_read_some, async_write, rearm, send_chars}
use async_echo_server.Version2.Session.Read.{returns, continues, finish_message, read_body}
use async_echo_server.Version2.Session.State.{Roomy}

pub rearm_lem :
    (s : CSession)
    → length s.buffer ≡ max_length
    → rearm s ≡ ok (record s { buffer = zeros max_length }, async_read_some ∷ [])
unfolding rearm
rearm_lem s h = rw (memset_all s.buffer max_length h)

abbrev pub finished : CSession → MsgNode → List MsgNode → CSession
finished s recv que = record s {
  recv_msg_node = some recv;
  send_que = que;
  b_head_parse = false;
  recv_head_node = cleared s.recv_head_node;
}

module _ (p : Platform) (l : LongWire) (s : CSession) (w : Roomy s) where
  module _ (recv : MsgNode) (text : List ℕ) (total : recv.total_len ≡ length text)
      (bound : length text ≤ max_length) (room : length text ≤ length recv.chars)
      (same : take (length text) recv.chars ≡ text) where
    sent :
        send_chars l
          (record s { recv_msg_node = some recv })
          recv.chars
          (int_of_short recv.total_len)
        ≡ ok (
          record s { recv_msg_node = some recv; send_que = (reply s.send_que text).0 },
          map async_write (reply s.send_que text).1,
        )
    unfolding send_chars
    sent = rw (total, send-reply l s.send_que recv.chars text room (omega arith) same)

    pub finish_last :
        (c : ℕ)
        → finish_message p l s recv c 0
          ≡ ok (
              returns
                (record (finished s recv (reply s.send_que text).0) { buffer = zeros max_length })
                (map async_write (reply s.send_que text).1 ++ async_read_some ∷ []))
    unfolding finish_message
    finish_last c = rw (
      sent,
      clear_lem s.recv_head_node (omega (arith, w.head_total))
          (omega (arith, w.head_total, w.head_room)),
      rearm_lem (finished s recv (reply s.send_que text).0) w.room,
    )

    pub finish_more :
        (c n : ℕ)
        → 0 < n
        → finish_message p l s recv c n
          ≡ ok (
              continues
                (finished s recv (reply s.send_que text).0)
                c
                n
                (map async_write (reply s.send_que text).1))
    unfolding finish_message
    finish_more c n more = rw (
      sent,
      clear_lem s.recv_head_node (omega (arith, w.head_total))
          (omega (arith, w.head_total, w.head_room)),
      eq_false n 0 (omega arith),
    )

  module _ (c n : ℕ) (inside : c + n ≤ max_length) where
    pub body_partial :
        (recv : MsgNode)
        → recv.total_len ≤ max_length
        → recv.cur_len + n < recv.total_len
        → length recv.chars ≡ recv.total_len + 1
        → read_body p l s recv c n
          ≡ ok (
              returns
                (record s {
                  recv_msg_node = some (filled recv s.buffer c n);
                  buffer = zeros max_length;
                })
                (async_read_some ∷ []))
    unfolding read_body
    body_partial recv bound short node_room = rw (
      size_of_short_lem recv.total_len (omega arith),
      size_of_short_lem recv.cur_len (omega arith),
      sub_size_lem recv.total_len recv.cur_len (omega arith) (omega arith),
      lt→ltb n (recv.total_len - recv.cur_len) (omega arith),
      copy_in_lem recv s.buffer c n (omega arith) (omega arith) (omega (arith, w.room)),
      advance_lem
          (record recv { chars = splice recv.chars recv.cur_len (take n (drop c s.buffer)) }) n
          (omega arith),
      rearm_lem (record s { recv_msg_node = some (filled recv s.buffer c n) }) w.room,
    )

    pub body_full :
        (recv : MsgNode) (k : ℕ)
        → recv.total_len ≤ max_length
        → recv.cur_len + k ≡ recv.total_len
        → k ≤ n
        → length recv.chars ≡ recv.total_len + 1
        → read_body p l s recv c n
          ≡ finish_message p l s (completed recv s.buffer c k) (c + k) (n - k)
    unfolding read_body
    body_full recv k bound fits enough node_room = rw (
      remain,
      le→ltb n k enough,
      copy_in_lem recv s.buffer c k (omega arith) (omega arith) (omega (arith, w.room)),
      advance_lem
          (record recv { chars = splice recv.chars recv.cur_len (take k (drop c s.buffer)) }) k
          (omega arith),
      terminate_lem (filled recv s.buffer c k) (omega arith)
          (omega (arith, length-filled recv s.buffer c k (omega arith) (omega (arith, w.room)))),
      add_size_lem c k (omega arith),
      sub_size_lem n k enough (omega arith),
    )
      where
        remain : sub_size (size_of_short recv.total_len) (size_of_short recv.cur_len) ≡ k
        remain =
            rw
              (
                size_of_short_lem recv.total_len (omega arith),
                size_of_short_lem recv.cur_len (omega arith),
              )
              (omega (arith, sub_size_lem recv.total_len recv.cur_len (omega arith) (omega arith)))
