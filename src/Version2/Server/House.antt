-- ===== src/Version2/Server/House.antt =====
-- The server of version 2 with its sessions: accepts, chunks and completed writes, in any order.
use async_echo_server.Base.{
  ℕ, ◌+◌, ◌-◌, ◌<◌, ◌≡◌, Bool, false, List, [], ◌∷◌, ◌++◌, ok, if◌then◌else◌,
}
use async_echo_server.Platform.{Platform}
use async_echo_server.Base.{same}
use async_echo_server.Server.Floor as Floor
use async_echo_server.Version2.{LongWire}
use async_echo_server.Version2.Session.{CSession, Request, handle_write}
use async_echo_server.Version2.Session.Read.{returned, handle_read}
use async_echo_server.Version2.Session.Asks.{reads, clears}
use async_echo_server.Version2.Server.{CServer, clear_session, handle_accept, new_server}

-- A session that was started, and how many `async_read_some` it has outstanding.
pub record Conn : Type 0 where
  pub session : CSession
  pub reading : ℕ

pub record House : Type 0 where
  pub server : CServer
  pub conns : List Conn

abbrev pub uuid_of : Conn → List ℕ
uuid_of c = c.session.uuid

abbrev pub reading_of : Conn → ℕ
reading_of c = c.reading

-- The `clear_session` that a handler asks for.
abbrev pub tell : CServer → List ℕ → List Request → CServer
tell server uuid acts = if clears acts then clear_session server uuid else server

abbrev pub IsFresh : List ℕ → List Conn → Type 0
IsFresh uuid conns = Floor.IsFresh uuid_of reading_of uuid conns

-- A handler of the session of c has run, which changes nothing of the other sessions.
abbrev pub Runs : House → House → Conn → CSession → ℕ → List Request → Type 0
Runs g h c s reading acts =
    (before : List Conn) × (after : List Conn) × (g.conns ≡ before ++ c ∷ after)
    × (h ≡ record {
      server = tell g.server c.session.uuid acts;
      conns = before ++ record { session = s; reading = reading } ∷ after;
    })

module _ (p : Platform) (l : LongWire) where
  -- One completion. Boost draws a uuid that no session has, and completes a read with an error or at
  -- least one byte; what the socket has put into the buffer is arbitrary.
  pub data Step (g h : House) : Type 0 where
    accepts :
        (s : CSession) (error : Bool) (uuid buffer : List ℕ) (server : CServer) (s' : CSession)
        (acts : List Request)
        → g.server.accepting ≡ s ∷ []
        → handle_accept (record g.server { accepting = [] }) s error uuid buffer
          ≡ ok (server, s', acts)
        → same s'.uuid uuid ≡ false
        → IsFresh uuid g.conns
        → h ≡ record {
          server = server;
          conns =
              if error then g.conns else record { session = s'; reading = reads acts } ∷ g.conns;
        }
        → Step g h
    reads_chunk :
        (c : Conn) (buffer : List ℕ) (error : Bool) (bytes : ℕ) (s : CSession) (acts : List Request)
        → 0 < c.reading
        → 0 < bytes
        → handle_read p l (record c.session { buffer = buffer }) error bytes ≡ returned s acts
        → Runs g h c s (c.reading - 1 + reads acts) acts
        → Step g h
    writes_done :
        (c : Conn) (error : Bool) (s : CSession) (acts : List Request)
        → handle_write c.session error ≡ ok (s, acts)
        → Runs g h c s (c.reading + reads acts) acts
        → Step g h

  -- From a server that has just been made.
  pub data Reach : House → Type 0 where
    opens :
        (uuid buffer : List ℕ) (server : CServer)
        → new_server uuid buffer ≡ ok server
        → Reach (record { server = server; conns = [] })
    next : {g h : House} → Reach g → Step g h → Reach h
