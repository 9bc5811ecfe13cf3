-- ===== src/Server/House.antt =====
-- The server with its sessions: accepts, chunks, completed writes and sends, in any order.
use async_echo_server.Base.{
  ℕ, ◌+◌, ◌-◌, ◌<◌, ◌≡◌, Bool, false, List, [], ◌∷◌, ◌++◌, ok, if◌then◌else◌, All,
}
use async_echo_server.Platform.{Platform}
use async_echo_server.Session.{Session, Action}
use async_echo_server.Session.Receive.{returned, handle_read}
use async_echo_server.Session.Receive.Asks.{reads, clears}
use async_echo_server.Session.Send.{send_string, handle_write}
use async_echo_server.Base.{same}
use async_echo_server.Server.{CServer, clear_session, handle_accept, new_server}

-- A session that was started, and how many `async_read_some` it has outstanding.
pub record Conn : Type 0 where
  pub session : Session
  pub reading : ℕ

pub record House : Type 0 where
  pub server : CServer
  pub conns : List Conn

-- The `clear_session` that a handler asks for.
abbrev pub tell : CServer → List ℕ → List Action → CServer
tell server uuid acts = if clears acts then clear_session server uuid else server

-- The uuid is that of no session.
abbrev pub IsFresh : List ℕ → List Conn → Type 0
IsFresh uuid conns = All (λ c. same c.session.uuid uuid ≡ false) conns

-- A handler of the session of c has run, which changes nothing of the other sessions.
abbrev pub Runs : House → House → Conn → Session → ℕ → List Action → Type 0
Runs g h c s reading acts =
    (before : List Conn) × (after : List Conn) × (g.conns ≡ before ++ c ∷ after)
    × (h ≡ record {
      server = tell g.server c.session.uuid acts;
      conns = before ++ record { session = s; reading = reading } ∷ after;
    })

module _ (p : Platform) where
  -- One completion or call. Boost draws a uuid that no session has, and completes a read with an
  -- error or at least one byte; what the socket has put into the buffer is arbitrary.
  pub data Step (g h : House) : Type 0 where
    accepts :
        (s : Session) (error : Bool) (uuid buffer : List ℕ) (server : CServer) (s' : Session)
        (acts : List Action)
        → g.server.accepting ≡ s ∷ []
        → handle_accept (record g.server { accepting = [] }) s error uuid buffer
          ≡ ok (server, s', acts)
        → same s'.uuid uuid ≡ false
        → IsFresh uuid g.conns
        → h ≡ record {
          server = server;
          conns =
              if error then g.conns else record { session = s'; reading = reads acts } ∷ g.conns;
        }
        → Step g h
    reads_chunk :
        (c : Conn) (buffer : List ℕ) (error : Bool) (bytes : ℕ) (s : Session) (acts : List Action)
        → 0 < c.reading
        → 0 < bytes
        → handle_read p (record c.session { buffer = buffer }) error bytes ≡ returned s acts
        → Runs g h c s (c.reading - 1 + reads acts) acts
        → Step g h
    writes_done :
        (c : Conn) (error : Bool) (s : Session) (acts : List Action)
        → handle_write c.session error ≡ ok (s, acts)
        → Runs g h c s (c.reading + reads acts) acts
        → Step g h
    sends :
        (c : Conn) (msg : List ℕ) (msg_id : ℕ) (s : Session) (acts : List Action)
        → send_string p c.session msg msg_id ≡ ok (s, acts)
        → Runs g h c s (c.reading + reads acts) acts
        → Step g h

  -- From a server that has just been made.
  pub data Reach : House → Type 0 where
    opens :
        (uuid buffer : List ℕ) (server : CServer)
        → new_server uuid buffer ≡ ok server
        → Reach (record { server = server; conns = [] })
    next : {g h : House} → Reach g → Step g h → Reach h
