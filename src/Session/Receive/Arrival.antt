-- ===== src/Session/Receive/Arrival.antt =====
-- Asio puts a chunk at the start of the buffer of a session.
use async_echo_server.Base.{
  ℕ, ◌≤◌, ◌≡◌, List, ◌++◌, length, drop, arith, length-append, length-drop,
}
use async_echo_server.Wire.{header, body, refused, failed, Receiver}
use async_echo_server.MsgNode.{max_length}
use async_echo_server.Session.{Session}
use async_echo_server.Session.Receive.State.{Holds}
use async_echo_server.Session.Receive.Refine.{Waits}

-- What `async_read_some` does with the chunk that came in.
abbrev pub arrive : Session → List ℕ → Session
arrive s chunk = record s { buffer = chunk ++ drop (length chunk) s.buffer }

length-arrive :
    (s : Session) (chunk : List ℕ)
    → length s.buffer ≡ max_length
    → length chunk ≤ max_length
    → length (arrive s chunk).buffer ≡ max_length
length-arrive s chunk room le = omega (
  arith,
  length-append chunk (drop (length chunk) s.buffer),
  length-drop (length chunk) s.buffer,
  room,
)

pub arrive-Waits :
    (s : Session) (rx : Receiver) (chunk : List ℕ)
    → length chunk ≤ max_length
    → Waits s rx
    → Waits (arrive s chunk) rx
arrive-Waits s (header h) chunk le a = record {
  parse = a.parse;
  room = length-arrive s chunk a.room le;
  head_total = a.head_total;
  head_room = a.head_room;
  cur = a.cur;
  short = a.short;
  kept = a.kept;
}
arrive-Waits s (body id len bytes) chunk le a = record {
  parse = a.parse;
  room = length-arrive s chunk a.room le;
  head_total = a.head_total;
  head_room = a.head_room;
  recv = a.recv;
  held = a.held;
  ident = a.ident;
  total = a.total;
  bound = a.bound;
  node_room = a.node_room;
  cur = a.cur;
  short = a.short;
  kept = a.kept;
}
arrive-Waits s refused chunk le a = a
arrive-Waits s failed chunk le a = a

pub Waits-Holds : (s : Session) (rx : Receiver) → Waits s rx → Holds s rx
Waits-Holds s (header h) a = a
Waits-Holds s (body id len bytes) a = a
Waits-Holds s refused a = absurd a
Waits-Holds s failed a = absurd a
