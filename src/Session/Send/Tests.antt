-- ===== src/Session/Send/Tests.antt =====
-- A line that sends two greetings, and one whose first write fails.
use async_echo_server.Base.{
  ℕ, ◌+◌, ◌≤◌, ◌≡◌, refl, ◌⊎◌, true, false, none, List, [], ◌∷◌, ◌++◌, map, ok, threw, corrupt,
  length, arith, take, drop, replicate, length-replicate, ltb, if◌then◌else◌,
}
use async_echo_server.Platform.{size_of_short, short_of_size}
use async_echo_server.Platform.Examples.{little_endian, swap_bytes}
use async_echo_server.Memory.{zeros, splice, memcpy, put_char, new_chars}
use async_echo_server.MsgNode.{
  SendNode, new_msg_node, put_short, new_send_node, wire_bytes, max_send_queue,
}
use async_echo_server.Wire.Frames.{frame}
use async_echo_server.Session.{Session, async_write, close}
use async_echo_server.Session.Send.{send_string, write_front, handle_write}
use async_echo_server.Session.Send.Line.{
  Line, Step, writes, sends_string, completes, fails, Opened, Reach, here, next,
}
use async_echo_server.Session.Send.Safety.{
  one_write_at_a_time, frames_in_order, queue_bounded, waiting_is_written, broken_is_final,
}
use async_echo_server.Session.Send.Reply.{with_frame, send_string_lem, send_string-too_long}

abbrev quiet : Session
quiet = record {
  uuid = 7 ∷ [];
  buffer = [];
  b_close = false;
  send_que = [];
  recv_msg_node = none;
  b_head_parse = false;
  recv_head_node = record { cur_len = 0; total_len = 4; chars = 0 ∷ 0 ∷ 0 ∷ 0 ∷ 0 ∷ [] };
}

abbrev hi : List ℕ
hi = 104 ∷ 105 ∷ []

abbrev hi_frame : List ℕ
hi_frame = 3 ∷ 233 ∷ 0 ∷ 2 ∷ 104 ∷ 105 ∷ []

abbrev hi_node : SendNode
hi_node = record {
  node = record { cur_len = 0; total_len = 6; chars = 3 ∷ 233 ∷ 0 ∷ 2 ∷ 104 ∷ 105 ∷ 0 ∷ [] };
  msg_id = 1001;
}

abbrev opened : Line
opened = record { session = quiet; writing = []; written = []; accepted = []; broken = false }

opened-Opened : Opened opened
opened-Opened = record {
  empty = refl;
  idle = refl;
  nothing_written = refl;
  nothing_accepted = refl;
  sound = refl;
}

abbrev one_queued : Session
one_queued = record quiet { send_que = hi_node ∷ [] }

abbrev two_queued : Session
two_queued = record quiet { send_que = hi_node ∷ hi_node ∷ [] }

first_send : send_string little_endian quiet hi 1001 ≡ ok (one_queued, async_write hi_frame ∷ [])
unfolding send_string new_send_node new_msg_node new_chars zeros replicate put_char splice memcpy
    put_short take drop wire_bytes write_front size_of_short short_of_size swap_bytes
first_send = refl

second_send : send_string little_endian one_queued hi 1001 ≡ ok (two_queued, [])
unfolding send_string new_send_node new_msg_node new_chars zeros replicate put_char splice memcpy
    put_short take drop size_of_short short_of_size swap_bytes
second_send = refl

abbrev one_sent : Line
one_sent = record opened { session = one_queued; writing = hi_frame ∷ []; accepted = hi_frame ∷ [] }

abbrev two_sent : Line
two_sent = record one_sent { session = two_queued; accepted = hi_frame ∷ hi_frame ∷ [] }

abbrev one_written : Line
one_written = record two_sent { session = one_queued; written = hi_frame ∷ [] }

abbrev failed_line : Line
failed_line = record one_sent {
  session = record one_queued { b_close = true };
  writing = [];
  broken = true;
}

Step-first : Step little_endian opened one_sent
unfolding writes wire_bytes take drop size_of_short
Step-first = sends_string hi 1001 one_queued (async_write hi_frame ∷ []) first_send refl

Step-second : Step little_endian one_sent two_sent
unfolding writes wire_bytes take drop size_of_short
Step-second = sends_string hi 1001 two_queued [] second_send refl

Step-written : Step little_endian two_sent one_written
unfolding writes handle_write write_front wire_bytes take size_of_short
Step-written = completes hi_frame [] one_queued (async_write hi_frame ∷ []) refl refl refl

Step-failed : Step little_endian one_sent failed_line
unfolding writes handle_write close
Step-failed = fails hi_frame [] _ _ refl refl refl

history : Reach little_endian opened one_written
history = next (next (next here Step-first) Step-second) Step-written

one_write_at_a_time_example : length one_written.writing ≤ 1
one_write_at_a_time_example = one_write_at_a_time little_endian opened-Opened history

frames_in_order_example :
    one_written.written ++ map wire_bytes one_written.session.send_que ≡ hi_frame ∷ hi_frame ∷ []
frames_in_order_example = frames_in_order little_endian opened-Opened history

queue_bounded_example : length one_written.session.send_que ≤ max_send_queue + 1
queue_bounded_example = queue_bounded little_endian opened-Opened history

waiting_is_written_example : one_written.writing ≡ wire_bytes hi_node ∷ []
waiting_is_written_example =
    waiting_is_written little_endian hi_node [] opened-Opened history refl refl

broken_is_final_example :
    (failed_line.broken ≡ true) × (failed_line.written ≡ []) × (failed_line.writing ≡ [])
broken_is_final_example =
    broken_is_final little_endian opened-Opened (next (next here Step-first) Step-failed) refl here

send_string_lem_example :
    (node : SendNode) × (wire_bytes node ≡ frame (record { id = 1001; text = hi }))
    × (send_string little_endian quiet hi 1001 ≡ (
        if ltb max_send_queue 0
        then ok (quiet, [])
        else if ltb 0 0
        then ok (with_frame quiet node, [])
        else ok (with_frame quiet node, async_write (wire_bytes node) ∷ [])))
send_string_lem_example = send_string_lem little_endian quiet hi 1001 (omega arith) (omega arith)

send_string-too_long_example :
    (send_string little_endian quiet (replicate 32764 65) 1001 ≡ threw)
    ⊎ (send_string little_endian quiet (replicate 32764 65) 1001 ≡ corrupt)
send_string-too_long_example =
    send_string-too_long little_endian quiet (replicate 32764 65) 1001
      (omega (arith, length-replicate {0} {A = ℕ} 32764 65))
      (omega (arith, length-replicate {0} {A = ℕ} 32764 65)) (omega arith)
