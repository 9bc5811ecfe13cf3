-- ===== src/Version2/Frame.antt =====
-- What a frame of version 2 has on the wire.
use async_echo_server.Base.{
  refl, ap, ap₂, ◌∙◌, ◌++◌, take-zero, drop-zero, lt→ltb, ok, take, drop, ℕ, ◌+◌, ◌≤◌, ◌<◌, ◌≡◌,
  ◌^◌, ◌/◌, ◌%◌, List, [], ◌∷◌, arith, length, drop_all, append-nil,
}
use async_echo_server.Platform.{size_of_short, short_of_size_lem, size_of_short_lem}
use async_echo_server.Memory.{
  memcpy, take-splice, take-splice_before, length-window, splice, memcpy_lem, put_char_lem,
  length-splice, zeros, length-zeros, new_chars_lem,
}
use async_echo_server.MsgNode.{MsgNode}
use async_echo_server.Version2.{send, LongWire, int_of_short, new_frame_node}

module _ (l : LongWire) (msg : List ℕ) (len : ℕ) (fits : len ≤ length msg)
    (small : len + 2 < 0x8000) where
  one : List ℕ
  one = splice (zeros (len + 2 + 1)) 0 (0 ∷ 0 ∷ [])

  two : List ℕ
  two = splice one 2 (take len (drop 0 msg))

  frame_node : MsgNode
  frame_node = record { cur_len = 0; total_len = len + 2; chars = splice two (len + 2) (0 ∷ []) }

  length-one : length one ≡ len + 3
  unfolding one
  length-one =
      length-splice (zeros (len + 2 + 1)) 0 (0 ∷ 0 ∷ []) (omega (arith, length-zeros (len + 2 + 1)))
      ∙ omega (arith, length-zeros (len + 2 + 1))

  length-two : length two ≡ len + 3
  unfolding two
  length-two =
      length-splice one 2 (take len (drop 0 msg))
        (omega (arith, length-one, length-window msg 0 len (omega arith)))
      ∙ length-one

  network_bytes :
      l.network_long (int_of_short len)
      ≡ len / 2 ^ 24 ∷ len / 2 ^ 16 % 256 ∷ len / 2 ^ 8 % 256 ∷ len % 256 ∷ []
  unfolding int_of_short
  network_bytes = ap l.network_long same ∙ l.network_long-bytes len (omega arith)
    where
      same : int_of_short len ≡ len
      same = rw (lt→ltb len 0x8000 (omega arith))

  network_header : take 2 (drop 0 (l.network_long (int_of_short len))) ≡ 0 ∷ 0 ∷ []
  unfolding take drop
  network_header = ap (take 2) network_bytes ∙ ap₂ (λ a b. a ∷ b ∷ []) (omega arith) (omega arith)

  header_copied : memcpy (zeros (len + 2 + 1)) 0 (l.network_long (int_of_short len)) 0 2 ≡ ok one
  unfolding one
  header_copied =
      memcpy_lem (zeros (len + 2 + 1)) 0 (l.network_long (int_of_short len)) 0 2
        (omega (arith, length-zeros (len + 2 + 1))) (omega (arith, ap length network_bytes))
      ∙ ap (λ bs. ok (splice (zeros (len + 2 + 1)) 0 bs)) network_header

  new_frame_node-frame : new_frame_node l msg len ≡ ok frame_node
  unfolding new_frame_node frame_node two
  new_frame_node-frame = rw (
    short_of_size_lem (len + 2) (omega arith),
    new_chars_lem (len + 2) small,
    header_copied,
    size_of_short_lem len (omega arith),
    memcpy_lem one 2 msg 0 len (omega (arith, length-one)) (omega arith),
    size_of_short_lem (len + 2) small,
    put_char_lem two (len + 2) 0 (omega (arith, length-two)),
  )

  two-bytes : take (len + 2) two ≡ 0 ∷ 0 ∷ take len msg
  unfolding two one
  two-bytes =
      take-splice one 2 (len + 2) (take len (drop 0 msg)) (omega (arith, length-one))
        (omega (arith, length-window msg 0 len (omega arith)))
      ∙ ap₂ ◌++◌
          (take-splice (zeros (len + 2 + 1)) 0 2 (0 ∷ 0 ∷ []) (omega arith) refl
            ∙ ap (λ k. k ++ 0 ∷ 0 ∷ []) (take-zero (zeros (len + 2 + 1))))
          (ap (take len) (drop-zero msg))

  frame_node-bytes : take (len + 2) frame_node.chars ≡ 0 ∷ 0 ∷ take len msg
  unfolding frame_node
  frame_node-bytes =
      take-splice_before two (len + 2) (0 ∷ []) (omega (arith, length-two)) ∙ two-bytes

  -- The node, written out.
  pub new_frame_node-chars :
      new_frame_node l msg len
      ≡ ok (record { cur_len = 0; total_len = len + 2; chars = (0 ∷ 0 ∷ take len msg) ++ 0 ∷ [] })
  unfolding frame_node splice
  new_frame_node-chars =
      new_frame_node-frame
      ∙ ap (λ k. ok (record { cur_len = 0; total_len = len + 2; chars = k }))
          (ap₂ (λ a b. a ++ (0 ∷ []) ++ b) two-bytes
              (drop_all (len + 2 + 1) two (omega (arith, length-two)))
            ∙ append-nil ((0 ∷ 0 ∷ take len msg) ++ 0 ∷ []))

  -- Whatever a text of at most 32765 bytes is, Send on an empty queue writes two zero bytes and then the
  -- text: the length that the header should have is never sent.
  pub send-zero_length :
      (node : MsgNode) × (send l [] msg len ≡ ok (node ∷ [], (0 ∷ 0 ∷ take len msg) ∷ []))
  unfolding send
  send-zero_length = (
    frame_node,
    rw (short_of_size_lem len (omega arith), new_frame_node-frame, total, frame_node-bytes),
  )
    where
      total : size_of_short frame_node.total_len ≡ len + 2
      total = unfold frame_node in size_of_short_lem (len + 2) small
