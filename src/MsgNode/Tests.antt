-- ===== src/MsgNode/Tests.antt =====
-- A frame on a machine of the other byte order.
use async_echo_server.Base.{◌≡◌, [], ◌∷◌, ok, arith, take}
use async_echo_server.Platform.Examples.{big_endian_machine}
use async_echo_server.Wire.Frames.{frame}
use async_echo_server.MsgNode.{SendNode, new_send_node, wire_bytes}
use async_echo_server.MsgNode.Encode.{new_send_node-frame}

new_send_node-frame_example :
    (node : SendNode) × (new_send_node big_endian_machine (104 ∷ 105 ∷ 0 ∷ []) 2 1001 ≡ ok node)
    × (wire_bytes node ≡ frame (record { id = 1001; text = 104 ∷ 105 ∷ [] }))
unfolding take
new_send_node-frame_example =
    new_send_node-frame big_endian_machine (104 ∷ 105 ∷ 0 ∷ []) 2 1001 (omega arith) (omega arith)
      (omega arith)
