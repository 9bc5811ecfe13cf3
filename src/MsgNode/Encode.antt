-- ===== src/MsgNode/Encode.antt =====
-- SendNode::SendNode: what the node has on the wire.
use async_echo_server.Base.{
  ap₂, drop-zero, take-zero, ◌++◌, length-take, ℕ, ◌+◌, ◌≤◌, ◌<◌, ◌≡◌, ap, ◌∙◌, List, [], ◌∷◌, ok,
  arith, length, take, drop, ◌^◌,
}
use async_echo_server.Platform.{Platform, short_of_size_lem, size_of_short_lem}
use async_echo_server.Memory.{take-splice, length-window, splice, memcpy_lem, length-splice}
use async_echo_server.Wire.Frames.{big_endian, frame}
use async_echo_server.MsgNode.{SendNode, put_short, new_send_node, wire_bytes}
use async_echo_server.MsgNode.Laws.{fresh_node, new_msg_node_lem, length-fresh_node}

put_short_lem :
    (p : Platform) (dst : List ℕ) (off w : ℕ)
    → off + 2 ≤ length dst
    → w < 2 ^ 16
    → put_short p dst off (p.host_to_network_short w) ≡ ok (splice dst off (big_endian w))
unfolding put_short take drop
put_short_lem p dst off w h k =
    memcpy_lem dst off _ 0 2 h (omega arith)
    ∙ ap (λ q. ok (splice dst off (q.0 ∷ q.1 ∷ []))) (p.store-host_to_network w k)

-- The array of the node, as the constructor fills it.
written : List ℕ → ℕ → ℕ → List ℕ
written msg len id =
    splice (splice (splice (fresh_node (len + 4)).chars 0 (big_endian id)) 2 (big_endian len)) 4
      (take len (drop 0 msg))

abbrev send_node : List ℕ → ℕ → ℕ → SendNode
send_node msg len id = record {
  node = record (fresh_node (len + 4)) { chars = written msg len id };
  msg_id = id;
}

module _ (msg : List ℕ) (len id : ℕ) (fits : len ≤ length msg) where
  length-one : length (splice (fresh_node (len + 4)).chars 0 (big_endian id)) ≡ len + 5
  length-one =
      length-splice (fresh_node (len + 4)).chars 0 (big_endian id)
        (omega (arith, length-fresh_node (len + 4)))
      ∙ omega (arith, length-fresh_node (len + 4))

  length-two :
      length (splice (splice (fresh_node (len + 4)).chars 0 (big_endian id)) 2 (big_endian len))
      ≡ len + 5
  length-two =
      length-splice (splice (fresh_node (len + 4)).chars 0 (big_endian id)) 2 (big_endian len)
        (omega (arith, length-one))
      ∙ length-one

  new_send_node_lem :
      (p : Platform)
      → len + 4 < 0x8000
      → id < 2 ^ 16
      → new_send_node p msg len id ≡ ok (send_node msg len id)
  unfolding new_send_node written
  new_send_node_lem p small id_fits = rw (
    short_of_size_lem (len + 4) (omega arith),
    new_msg_node_lem (len + 4) small,
    put_short_lem p (fresh_node (len + 4)).chars 0 id (omega (arith, length-fresh_node (len + 4)))
        id_fits,
    put_short_lem p (splice (fresh_node (len + 4)).chars 0 (big_endian id)) 2 len
        (omega (arith, length-one)) (omega arith),
    size_of_short_lem len (omega arith),
    memcpy_lem (splice (splice (fresh_node (len + 4)).chars 0 (big_endian id)) 2 (big_endian len)) 4
        msg 0 len (omega (arith, length-two)) (omega arith),
  )

  wire_bytes-send_node :
      len + 4 < 0x8000
      → wire_bytes (send_node msg len id) ≡ frame (record { id = id; text = take len msg })
  unfolding wire_bytes written frame
  wire_bytes-send_node small = rw (size_of_short_lem (len + 4) small) (
      take-splice two 4 (len + 4) (take len (drop 0 msg)) (omega (arith, length-two))
        (omega (arith, length-window msg 0 len (omega arith)))
      ∙ ap₂ ◌++◌
          (take-splice one 2 4 (big_endian len) (omega (arith, length-one)) (omega arith)
            ∙ ap (λ k. k ++ big_endian len)
                (take-splice zero_node 0 2 (big_endian id) (omega arith) (omega arith)
                  ∙ ap (λ k. k ++ big_endian id) (take-zero zero_node)))
          (ap (take len) (drop-zero msg))
      ∙ size)
    where
      zero_node : List ℕ
      zero_node = (fresh_node (len + 4)).chars

      one : List ℕ
      one = splice zero_node 0 (big_endian id)

      two : List ℕ
      two = splice one 2 (big_endian len)

      size :
          big_endian id ++ big_endian len ++ take len msg
          ≡ big_endian id ++ big_endian (length (take len msg)) ++ take len msg
      size =
          ap (λ k. big_endian id ++ big_endian k ++ take len msg)
            (omega (arith, length-take len msg))

-- `SendNode(msg, max_len, msg_id)` can be made whenever the message has `max_len` bytes and the
-- frame fits a `short`, and what it puts on the wire is the frame of the id and those bytes.
pub new_send_node-frame :
    (p : Platform) (msg : List ℕ) (len id : ℕ)
    → len ≤ length msg
    → len + 4 < 0x8000
    → id < 2 ^ 16
    → (node : SendNode) × (new_send_node p msg len id ≡ ok node)
      × (wire_bytes node ≡ frame (record { id = id; text = take len msg }))
new_send_node-frame p msg len id fits small id_fits = (
  send_node msg len id,
  new_send_node_lem msg len id fits p small id_fits,
  wire_bytes-send_node msg len id fits small,
)
