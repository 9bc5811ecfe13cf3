-- ===== src/Session/Receive/Tests.antt =====
-- `HandleRead` on concrete streams.
use async_echo_server.Base.{
  drop, get_or, take, ℕ, if◌then◌else◌, arith, ◌≡◌, refl, List, [], ◌∷◌, flatten, false, replicate,
}
use async_echo_server.Platform.{size_of_short, add_size, sub_size, short_gt, is_negative}
use async_echo_server.Memory.{memcpy, splice, zeros}
use async_echo_server.MsgNode.{copy_in, get_short}
use async_echo_server.Session.{clear_session, Session, Action}
use async_echo_server.Session.Receive.{
  read_loop, round, read_header, proceed, returned, handle_read,
}
use async_echo_server.Session.Receive.Settles.{handle_read-Resolved}
use async_echo_server.Session.Receive.Asks.{reads, clears}
use async_echo_server.Platform.Examples.{little_endian, swap_bytes}
use async_echo_server.Wire.{Message, header, absorb}
use async_echo_server.Wire.Frames.{frame}
use async_echo_server.Session.Receive.Examples.{waiting, waiting-AtHeader}
use async_echo_server.Session.Receive.State.{AtHeader}
use async_echo_server.Session.Receive.Refine.{Meets, handle_read-refines}
use async_echo_server.Session.Receive.Stream.{posted, receive, Received, receive-Received}
use async_echo_server.Session.Receive.RoundTrip.{receive-frames}

-- "hi" under id 1001, and an empty message under id 5.
abbrev greetings : List Message
greetings = record { id = 1001; text = 104 ∷ 105 ∷ [] } ∷ record { id = 5; text = [] } ∷ []

-- The two frames, cut inside the first header and inside the second one.
abbrev pieces : List (List ℕ)
pieces = (3 ∷ 233 ∷ 0 ∷ []) ∷ (2 ∷ 104 ∷ 105 ∷ 0 ∷ 5 ∷ []) ∷ (0 ∷ 0 ∷ []) ∷ []

handle_read-refines_example :
    Meets
      (absorb little_endian (header []) (0 ∷ 0 ∷ 0 ∷ []))
      (handle_read little_endian waiting false 3)
unfolding zeros replicate take
handle_read-refines_example =
    handle_read-refines little_endian waiting 3 (header []) waiting-AtHeader (omega arith)
      (omega arith)

receive-Received_example :
    Received
      (absorb little_endian (header []) (flatten pieces))
      (receive little_endian waiting pieces)
receive-Received_example =
    receive-Received little_endian waiting (header []) pieces waiting-AtHeader (omega arith)

receive-frames_example :
    (s' : Session) × (acts : List Action) × (receive little_endian waiting pieces
      ≡ returned s' acts)
    × (posted acts ≡ greetings)
    × AtHeader s' []
unfolding frame flatten
receive-frames_example =
    receive-frames little_endian waiting greetings pieces waiting-AtHeader (omega arith)
      (omega arith) refl

-- A header with the id 32767, which the server does not take.
abbrev refused_chunk : Session
refused_chunk = record waiting { buffer = 127 ∷ 255 ∷ 0 ∷ 2 ∷ [] }

abbrev refused_session : Session
refused_session = record refused_chunk {
  recv_head_node = record { cur_len = 0; total_len = 4; chars = 127 ∷ 255 ∷ 0 ∷ 2 ∷ 0 ∷ [] };
}

refusal :
    handle_read little_endian refused_chunk false 4 ≡ returned refused_session (clear_session ∷ [])
unfolding handle_read read_loop round read_header proceed add_size sub_size size_of_short short_gt
    is_negative copy_in memcpy splice get_short take drop get_or swap_bytes
refusal = refl

handle_read-Resolved_example :
    (refused_session.uuid ≡ refused_chunk.uuid)
    × (reads (clear_session ∷ []) ≡ (if clears (clear_session ∷ []) then 0 else 1))
handle_read-Resolved_example =
    handle_read-Resolved little_endian refused_chunk false 4 refused_session (clear_session ∷ [])
      (omega arith) refusal
