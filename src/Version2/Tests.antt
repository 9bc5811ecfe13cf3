-- ===== src/Version2/Tests.antt =====
-- A text of two bytes.
use async_echo_server.Base.{◌≡◌, [], ◌∷◌, ok, take, arith}
use async_echo_server.MsgNode.{MsgNode}
use async_echo_server.Version2.{send}
use async_echo_server.Version2.Examples.{long_wire}
use async_echo_server.Version2.Frame.{send-zero_length}

send-zero_length_example :
    (node : MsgNode) × (send long_wire [] (104 ∷ 105 ∷ []) 2
      ≡ ok (node ∷ [], (0 ∷ 0 ∷ take 2 (104 ∷ 105 ∷ [])) ∷ []))
send-zero_length_example = send-zero_length long_wire (104 ∷ 105 ∷ []) 2 (omega arith) (omega arith)
