-- ===== src/MultiThread/Session/Tests.antt =====
-- Chunks for a session of the multi-threaded server.
use async_echo_server.Platform.{short_gt}
use async_echo_server.Base.{
  get_or, ℕ, ◌≡◌, refl, true, false, none, List, [], ◌∷◌, ◌++◌, flatten, take, replicate, arith,
}
use async_echo_server.Platform.Examples.{little_endian, swap_bytes}
use async_echo_server.Memory.{zeros, length-zeros}
use async_echo_server.Wire.{Message, header, failed, absorb, feed, begin, open_message, gather}
use async_echo_server.Wire.Frames.{frame}
use async_echo_server.Session.{Session, Action}
use async_echo_server.Session.Receive as V3Read
use async_echo_server.Session.Receive.State.{AtHeader}
use async_echo_server.Session.Receive.Stream.{posted}
use async_echo_server.Session.Send as V3Send
use async_echo_server.MultiThread.Session.{send_string, send_chars, handle_write}
use async_echo_server.MultiThread.Session.Read.{returned, handle_read}
use async_echo_server.MultiThread.Session.Same.{without_catch, handle_read-V3}
use async_echo_server.MultiThread.Session.Frames.{receive, receive-messages}
use async_echo_server.MultiThread.Session.Stranded.{Stranded, handle_read-Stranded}
use async_echo_server.MultiThread.Session.Writes.{writes-V3}

-- A session whose buffer starts with these bytes.
abbrev holding : List ℕ → ℕ → Session
holding bytes more = record {
  uuid = 7 ∷ [];
  buffer = bytes ++ zeros more;
  b_close = false;
  send_que = [];
  recv_msg_node = none;
  b_head_parse = false;
  recv_head_node = record { cur_len = 0; total_len = 4; chars = 0 ∷ 0 ∷ 0 ∷ 0 ∷ 0 ∷ [] };
}

waiting-AtHeader : AtHeader (holding [] 2048) []
unfolding take
waiting-AtHeader = record {
  parse = refl;
  room = length-zeros 2048;
  head_total = refl;
  head_room = refl;
  cur = refl;
  short = omega arith;
  kept = refl;
}

-- The header has the id 1001 and the length 32768, which is negative as a `short`.
negative-AtHeader : AtHeader (holding (3 ∷ 233 ∷ 128 ∷ 0 ∷ []) 2044) []
unfolding take
negative-AtHeader = record {
  parse = refl;
  room = omega (arith, length-zeros 2044);
  head_total = refl;
  head_room = refl;
  cur = refl;
  short = omega arith;
  kept = refl;
}

abbrev greeting : List Message
greeting = record { id = 1001; text = 104 ∷ 105 ∷ [] } ∷ []

abbrev pieces : List (List ℕ)
pieces = (3 ∷ 233 ∷ 0 ∷ []) ∷ (2 ∷ 104 ∷ []) ∷ (105 ∷ []) ∷ []

receive-messages_example :
    (s' : Session) × (acts : List Action) × (receive little_endian (holding [] 2048) pieces
      ≡ returned s' acts)
    × (posted acts ≡ greeting)
    × AtHeader s' []
unfolding frame flatten
receive-messages_example =
    receive-messages little_endian (holding [] 2048) greeting pieces waiting-AtHeader (omega arith)
      (omega arith) refl

negative_header :
    absorb little_endian (header []) (take 4 (holding (3 ∷ 233 ∷ 128 ∷ 0 ∷ []) 2044).buffer)
    ≡ (failed, [])
unfolding take absorb feed begin open_message gather swap_bytes zeros replicate short_gt get_or
negative_header = refl

handle_read-Stranded_example :
    Stranded [] (handle_read little_endian (holding (3 ∷ 233 ∷ 128 ∷ 0 ∷ []) 2044) false 4)
handle_read-Stranded_example =
    handle_read-Stranded little_endian (holding (3 ∷ 233 ∷ 128 ∷ 0 ∷ []) 2044) 4 (header []) []
      negative-AtHeader (omega arith) (omega arith) negative_header

handle_read-V3_example :
    without_catch (handle_read little_endian (holding (3 ∷ 233 ∷ 128 ∷ 0 ∷ []) 2044) false 4)
    ≡ V3Read.handle_read little_endian (holding (3 ∷ 233 ∷ 128 ∷ 0 ∷ []) 2044) false 4
handle_read-V3_example =
    handle_read-V3 little_endian (holding (3 ∷ 233 ∷ 128 ∷ 0 ∷ []) 2044) false 4

writes-V3_example :
    (send_string little_endian (holding [] 0) (104 ∷ 105 ∷ []) 5
      ≡ V3Send.send_string little_endian (holding [] 0) (104 ∷ 105 ∷ []) 5)
    × (send_chars little_endian (holding [] 0) (104 ∷ 105 ∷ []) 2 5
        ≡ V3Send.send_chars little_endian (holding [] 0) (104 ∷ 105 ∷ []) 2 5)
    × (handle_write (holding [] 0) true ≡ V3Send.handle_write (holding [] 0) true)
writes-V3_example = writes-V3 little_endian (holding [] 0) (104 ∷ 105 ∷ []) 2 5 true (omega arith)
