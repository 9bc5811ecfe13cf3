-- ===== src/Version2/Server.antt =====
-- Server/Server.h and Server.cpp of version 2: the sessions that the server keeps, and its acceptor.
pub mod Accept
pub mod House
pub mod Reading
mod Tests
use async_echo_server.Base.{ℕ, Bool, true, false, List, [], ◌∷◌, ◌++◌, Exec, ok, ◌>>=◌}
use async_echo_server.Server.{insert_session, erase_session}
use async_echo_server.Version2.Session.{CSession, Request, new_session, start}

-- `sessions` has for each uuid a pointer, written as the uuid of the session that it points to.
-- `accepting` has the sessions that an `async_accept` has been started for.
pub record CServer : Type 0 where
  pub sessions : List (List ℕ × List ℕ)
  pub accepting : List CSession

-- clear_session(uuid)
unfoldable pub clear_session : CServer → List ℕ → CServer
unfolding erase_session
clear_session server uuid = record server { sessions = erase_session uuid server.sessions }

-- StartAccept(), with the uuid that Boost draws for the new session and the memory it is made in.
unfoldable pub start_accept : CServer → List ℕ → List ℕ → Exec CServer
start_accept server uuid buffer = do
  s ← new_session uuid buffer
  ok (record server { accepting = server.accepting ++ s ∷ [] })

-- HandleAccept(new_session, error): the server, the session and what the session asks for.
unfoldable pub handle_accept :
    CServer → CSession → Bool → List ℕ → List ℕ → Exec (CServer × CSession × List Request)
unfolding insert_session start_accept
handle_accept server s error uuid buffer = elim error [
  | false ↦ (do
    (started, acts) ← start s
    let server' = record server {
      sessions = insert_session started.uuid started.uuid server.sessions;
    }
    server'' ← start_accept server' uuid buffer
    ok (server'', started, acts))
  | true ↦ (do server'' ← start_accept server uuid buffer; ok (server'', s, []))
]

-- CServer(io_context, port)
unfoldable pub new_server : List ℕ → List ℕ → Exec CServer
unfolding start_accept
new_server uuid buffer = start_accept (record { sessions = []; accepting = [] }) uuid buffer
