-- ===== src/Version2/Session/Connect.antt =====
-- A new connection of version 2, and the frames that come over it.
use async_echo_server.Base.{
  ℕ, ◌+◌, ◌≤◌, ◌≡◌, refl, ap, ◌∙◌, sym, subst, Bool, none, false, List, [], ◌∷◌, ◌++◌, map, flatten,
  ok, ◌>>=◌, length, drop, arith, All, take-zero,
}
use async_echo_server.Platform.{Platform}
use async_echo_server.Memory.{zeros, length-zeros, new_chars_lem}
use async_echo_server.MsgNode.{max_length}
use async_echo_server.Version2.{LongWire, max_send_queue}
use async_echo_server.Version2.Replies.{echo_node, echo_bytes}
use async_echo_server.Version2.Texts.{IsShort, text_frame, absorb-text_frames}
use async_echo_server.Version2.Session.{
  CSession, Request, async_read_some, new_data_node, new_session, start,
}
use async_echo_server.Version2.Session.State.{AtHeader}
use async_echo_server.Version2.Session.Steps.{rearm_lem}
use async_echo_server.Version2.Session.Openings.{data_node}
use async_echo_server.Version2.Session.History.{History, writes}
use async_echo_server.Version2.Session.Echo.{texts_come_back}

abbrev pub started : List ℕ → CSession
started uuid = record {
  uuid = uuid;
  buffer = zeros max_length;
  b_close = false;
  send_que = [];
  recv_msg_node = none;
  b_head_parse = false;
  recv_head_node = data_node 2;
}

start_lem :
    (uuid buffer : List ℕ)
    → length buffer ≡ max_length
    → (new_session uuid buffer >>= start) ≡ ok (started uuid, async_read_some ∷ [])
unfolding new_session new_data_node start
start_lem uuid buffer room =
    rw (new_chars_lem 2 (omega arith), rearm_lem (record (started uuid) { buffer = buffer }) room)

pub started-AtHeader : (uuid : List ℕ) → AtHeader (started uuid) []
started-AtHeader uuid = record {
  parse = refl;
  roomy = record { room = length-zeros max_length; head_total = refl; head_room = length-zeros 3 };
  cur = refl;
  short = omega arith;
  kept = take-zero (zeros 3);
}

-- A new session of version 2 that is started asks for a chunk. Once it has got the frames of at most
-- 1001 texts of at most 2048 bytes, in chunks of 1 to 2048 bytes cut in any way, with completed
-- writes between them in any order, the frames that were given to the socket, followed by those that
-- wait behind the first of the queue, are the texts in order, each with a length of zero in front.
pub frames_come_back :
    (p : Platform) (l : LongWire) (uuid buffer : List ℕ) (texts : List (List ℕ)) (s : CSession)
    (asked : List Request) (reading : Bool)
    → length buffer ≡ max_length
    → All IsShort texts
    → length texts ≤ max_send_queue + 1
    → History p l (started uuid) s (flatten (map text_frame texts)) asked reading
    → ((new_session uuid buffer >>= start) ≡ ok (started uuid, async_read_some ∷ []))
      × ((queued : List (List ℕ)) × (s.send_que ≡ map echo_node queued)
          × (writes asked ++ map echo_bytes (drop 1 queued) ≡ map echo_bytes texts))
frames_come_back p l uuid buffer texts s asked reading room short few h =
    let whole = absorb-text_frames p texts short in
    let (queued, queue, order) =
      texts_come_back p l (started uuid) s (flatten (map text_frame texts)) asked reading
        (started-AtHeader uuid) refl h
        (subst (λ r. length r.1 ≤ max_send_queue + 1) (sym whole) few) in
    (start_lem uuid buffer room, (queued, queue, order ∙ ap (λ r. map echo_bytes r.1) whole))
