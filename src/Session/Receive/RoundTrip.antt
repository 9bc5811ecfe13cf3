-- ===== src/Session/Receive/RoundTrip.antt =====
-- A new connection, and the frames that come over it.
use async_echo_server.Base.{
  ℕ, ◌≡◌, refl, ap, ◌∙◌, subst, List, [], ◌∷◌, map, flatten, ok, length, arith, All, take-zero,
  none, false,
}
use async_echo_server.Platform.{Platform}
use async_echo_server.Memory.{zeros, length-zeros}
use async_echo_server.Wire.{Message, header, absorb}
use async_echo_server.Wire.Frames.{frame, IsAcceptable, absorb-frames}
use async_echo_server.MsgNode.{max_length}
use async_echo_server.MsgNode.Laws.{fresh_node, new_msg_node_lem, length-fresh_node}
use async_echo_server.Session.{Session, Action, async_read, new_session, start}
use async_echo_server.Session.Receive.{Outcome, returned, threw_after, corrupted, unfinished}
use async_echo_server.Session.Receive.State.{AtHeader}
use async_echo_server.Session.Receive.Steps.{rearm_lem}
use async_echo_server.Session.Receive.Stream.{posted, receive, IsChunk, Received, receive-Received}

-- A run that leaves the receiver before a header returns to Asio there.
before_header :
    (h : List ℕ) (ms : List Message) (o : Outcome)
    → Received (header h, ms) o
    → (s : Session) × (acts : List Action) × (o ≡ returned s acts)
      × (posted acts ≡ ms)
      × AtHeader s h
before_header h ms (returned s acts) r = (s, acts, refl, r.0, r.1)
before_header h ms (threw_after acts) r = cc
before_header h ms corrupted r = cc
before_header h ms unfinished r = absurd r

-- The framing holds: frames with ids and lengths of at most 2048 that arrive back to back, cut into
-- chunks in any way, make `HandleRead` post exactly their messages, in order, with no exception and
-- no access outside a buffer; at the end the session waits for a new header.
pub receive-frames :
    (p : Platform) (s : Session) (ms : List Message) (chunks : List (List ℕ))
    → AtHeader s []
    → All IsAcceptable ms
    → All IsChunk chunks
    → flatten chunks ≡ flatten (map frame ms)
    → (s' : Session) × (acts : List Action) × (receive p s chunks ≡ returned s' acts)
      × (posted acts ≡ ms)
      × AtHeader s' []
receive-frames p s ms chunks a ok_ms ok_chunks e = before_header [] ms (receive p s chunks) (
    subst (λ r. Received r (receive p s chunks))
      (ap (absorb p (header [])) e ∙ absorb-frames p ms ok_ms)
      (receive-Received p s (header []) chunks a ok_chunks))

fresh : List ℕ → List ℕ → Session
fresh uuid buffer = record {
  uuid = uuid;
  buffer = buffer;
  b_close = false;
  send_que = [];
  recv_msg_node = none;
  b_head_parse = false;
  recv_head_node = fresh_node 4;
}

-- A session can be made, whatever its uuid and the first contents of its buffer, and `Start` asks
-- for the first chunk and leaves it before a header, with nothing to write.
pub start-AtHeader :
    (uuid buffer : List ℕ)
    → length buffer ≡ max_length
    → (s s' : Session) × (new_session uuid buffer ≡ ok s)
      × (start s ≡ ok (s', async_read ∷ []))
      × AtHeader s' []
      × (s'.send_que ≡ [])
unfolding new_session start fresh
start-AtHeader uuid buffer room = (
  fresh uuid buffer,
  record (fresh uuid buffer) { buffer = zeros max_length },
  rw (new_msg_node_lem 4 (omega arith)),
  rearm_lem (fresh uuid buffer) room,
  record {
    parse = refl;
    room = length-zeros max_length;
    head_total = refl;
    head_room = length-fresh_node 4;
    cur = refl;
    short = omega arith;
    kept = take-zero (fresh_node 4).chars;
  },
  refl,
)
