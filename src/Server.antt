-- ===== src/Server.antt =====
-- Server-version-3/Server.h and Server.cpp: the sessions that the server keeps, and its acceptor.
pub mod Sessions
pub mod Handlers
pub mod House
pub mod Accept
pub mod Floor
pub mod Reading
mod Tests
use async_echo_server.Base.{
  ℕ, Bool, true, false, Option, none, some, List, [], ◌∷◌, ◌++◌, Exec, ok, ◌>>=◌, ◌==◌, ◌&&◌,
  if◌then◌else◌, same,
}
use async_echo_server.Session.{Session, Action, new_session, start}

-- `sessions` has for each uuid a pointer, written as the uuid of the session that it points to.
-- `accepting` has the sessions that an `async_accept` has been started for.
pub record CServer : Type 0 where
  pub sessions : List (List ℕ × List ℕ)
  pub accepting : List Session

-- `_sessions.find(uuid)`
unfoldable pub find_session : List ℕ → List (List ℕ × List ℕ) → Option (List ℕ)
find_session uuid [] = none
find_session uuid ((key, session) ∷ m) = if same uuid key then some session else find_session uuid m

-- `_sessions.insert(make_pair(uuid, session))`, which leaves an entry that is there.
unfoldable pub insert_session : List ℕ → List ℕ → List (List ℕ × List ℕ) → List (List ℕ × List ℕ)
insert_session uuid session [] = (uuid, session) ∷ []
insert_session uuid session ((key, old) ∷ m) =
    if same uuid key then (key, old) ∷ m else (key, old) ∷ insert_session uuid session m

-- `_sessions.erase(uuid)`
unfoldable pub erase_session : List ℕ → List (List ℕ × List ℕ) → List (List ℕ × List ℕ)
erase_session uuid [] = []
erase_session uuid ((key, session) ∷ m) =
    if same uuid key then erase_session uuid m else (key, session) ∷ erase_session uuid m

-- clear_session(uuid)
unfoldable pub clear_session : CServer → List ℕ → CServer
unfolding erase_session
clear_session server uuid = record server { sessions = erase_session uuid server.sessions }

-- StartAccept(), with the uuid that Boost draws for the new session and the memory it is made in.
unfoldable pub start_accept : CServer → List ℕ → List ℕ → Exec CServer
start_accept server uuid buffer = do
  s ← new_session uuid buffer
  ok (record server { accepting = server.accepting ++ s ∷ [] })

-- HandleAccept(new_session, error): the server, the session and what the session asks for.
unfoldable pub handle_accept :
    CServer → Session → Bool → List ℕ → List ℕ → Exec (CServer × Session × List Action)
unfolding insert_session start_accept
handle_accept server s error uuid buffer = elim error [
  | false ↦ (do
    (started, acts) ← start s
    let server' = record server {
      sessions = insert_session started.uuid started.uuid server.sessions;
    }
    server'' ← start_accept server' uuid buffer
    ok (server'', started, acts))
  | true ↦ (do server'' ← start_accept server uuid buffer; ok (server'', s, []))
]

-- CServer(io_context, port)
unfoldable pub new_server : List ℕ → List ℕ → Exec CServer
unfolding start_accept
new_server uuid buffer = start_accept (record { sessions = []; accepting = [] }) uuid buffer
