-- ===== src/Version2/Session/Tests.antt =====
-- A chunk with the frame of the text "hi".
use async_echo_server.Base.{
  some, ℕ, ◌≡◌, refl, ap, true, false, List, [], ◌∷◌, ◌++◌, map, flatten, ok, ◌>>=◌, length, take,
  drop, arith, replicate, get_or,
}
use async_echo_server.Platform.{short_gt, size_of_short, short_of_size, add_size, sub_size}
use async_echo_server.Memory.{memset, memcpy, splice, put_char, new_chars, zeros, length-zeros}
use async_echo_server.MsgNode.{copy_in, terminate, advance, clear, get_short}
use async_echo_server.Version2.{send, new_frame_node}
use async_echo_server.Version2.Session.{
  send_chars, rearm, new_data_node, async_write, CSession, Request, new_session, start,
  async_read_some,
}
use async_echo_server.Platform.Examples.{swap_bytes, little_endian}
use async_echo_server.Version2.Examples.{long_wire}
use async_echo_server.Version2.Wire.{header, absorb}
use async_echo_server.Version2.Texts.{absorb-text_frames}
use async_echo_server.Version2.Replies.{echo_node, echo_bytes}
use async_echo_server.Version2.Session.Read.{handle_read, returned}
use async_echo_server.Version2.Session.Refine.{Meets, handle_read-echoes}
use async_echo_server.Version2.Session.Connect.{started, started-AtHeader, frames_come_back}
use async_echo_server.Version2.Session.History.{is_armed, arrive, History, opened, received, writes}
use async_echo_server.Version2.Session.Echo.{texts_come_back}

abbrev chunk : List ℕ
chunk = 0 ∷ 2 ∷ 104 ∷ 105 ∷ []

handle_read-echoes_example :
    Meets []
      (absorb little_endian (header []) (take 3 (started (7 ∷ [])).buffer))
      (handle_read little_endian long_wire (started (7 ∷ [])) false 3)
handle_read-echoes_example =
    handle_read-echoes little_endian long_wire (started (7 ∷ [])) 3 (header [])
      (started-AtHeader (7 ∷ [])) (omega arith) (omega arith)

abbrev answered : CSession
answered = record (started (7 ∷ [])) {
  send_que = echo_node (104 ∷ 105 ∷ []) ∷ [];
  recv_msg_node = some (record { cur_len = 2; total_len = 2; chars = 104 ∷ 105 ∷ 0 ∷ [] });
}

chunk_handled :
    handle_read little_endian long_wire (arrive (started (7 ∷ [])) chunk) false (length chunk)
    ≡ returned answered (async_write (0 ∷ 0 ∷ 104 ∷ 105 ∷ []) ∷ async_read_some ∷ [])
unfolding handle_read drop take get_or zeros replicate swap_bytes short_gt send_chars rearm memset
    copy_in memcpy splice terminate put_char advance size_of_short short_of_size add_size sub_size
    clear get_short send new_frame_node new_data_node new_chars
chunk_handled = refl

abbrev asked : List Request
asked = async_write (0 ∷ 0 ∷ 104 ∷ 105 ∷ []) ∷ async_read_some ∷ []

history : History little_endian long_wire (started (7 ∷ [])) answered chunk asked true
unfolding is_armed
history = received (started (7 ∷ [])) answered [] chunk [] asked opened (omega arith) chunk_handled

chunk_texts : absorb little_endian (header []) chunk ≡ (header [], (104 ∷ 105 ∷ []) ∷ [])
unfolding flatten
chunk_texts = absorb-text_frames little_endian ((104 ∷ 105 ∷ []) ∷ []) (omega arith)

texts_come_back_example :
    (queued : List (List ℕ)) × (answered.send_que ≡ map echo_node queued)
    × (writes asked ++ map echo_bytes (drop 1 queued)
        ≡ map echo_bytes (absorb little_endian (header []) chunk).1)
texts_come_back_example =
    texts_come_back little_endian long_wire (started (7 ∷ [])) answered chunk asked true
      (started-AtHeader (7 ∷ [])) refl history (omega (arith, ap (λ r. length r.1) chunk_texts))

frames_come_back_example :
    ((new_session (7 ∷ []) (zeros 2048) >>= start) ≡ ok (started (7 ∷ []), async_read_some ∷ []))
    × ((queued : List (List ℕ)) × (answered.send_que ≡ map echo_node queued)
        × (writes asked ++ map echo_bytes (drop 1 queued) ≡ map echo_bytes ((104 ∷ 105 ∷ []) ∷ [])))
unfolding flatten
frames_come_back_example =
    frames_come_back little_endian long_wire (7 ∷ []) (zeros 2048) ((104 ∷ 105 ∷ []) ∷ []) answered
      asked true (length-zeros 2048) (omega arith) (omega arith) history
