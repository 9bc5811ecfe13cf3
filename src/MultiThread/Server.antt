-- ===== src/MultiThread/Server.antt =====
-- Server-version-3-multi-thread/CServer.h and CServer.cpp: the server, which makes each session on
-- the next context of the pool. `MultiThread.Accept` has what a thread of the pool can do between the
-- calls of HandleAccept.
pub mod InTurn
mod Tests
use async_echo_server.Base.{ℕ, Bool, true, false, List, [], ◌∷◌, ◌++◌, Exec, ok, ◌>>=◌}
use async_echo_server.Session.{Session, Action}
use async_echo_server.Server.{insert_session, erase_session}
use async_echo_server.MultiThread.Session.{new_session, start}
use async_echo_server.MultiThread.Pool.{AsioIoServicePool, get_io_service}

-- `sessions` has for each uuid a pointer, written as the uuid of the session that it points to.
-- `accepting` has the sessions that an `async_accept` has been started for, each with the index of its
-- context. The mutex of the map is held for one operation at a time.
pub record CServer : Type 0 where
  pub sessions : List (List ℕ × List ℕ)
  pub accepting : List (ℕ × Session)

-- StartAccept(), with the pool that is the one instance, the uuid that Boost draws for the new session
-- and the memory it is made in.
unfoldable pub start_accept :
    AsioIoServicePool → CServer → List ℕ → List ℕ → Exec (AsioIoServicePool × CServer)
start_accept pool server uuid buffer = do
  (context, pool') ← get_io_service pool
  s ← new_session uuid buffer
  ok (pool', record server { accepting = server.accepting ++ (context, s) ∷ [] })

-- HandleAccept(new_session, error): the pool, the server, the session and what it asks for.
unfoldable pub handle_accept :
    AsioIoServicePool
    → CServer
    → Session
    → Bool
    → List ℕ
    → List ℕ
    → Exec (AsioIoServicePool × CServer × Session × List Action)
unfolding start_accept
handle_accept pool server s error uuid buffer = elim error [
  | false ↦ (do
    (started, acts) ← start s
    let server' = record server {
      sessions = insert_session started.uuid started.uuid server.sessions;
    }
    (pool', server'') ← start_accept pool server' uuid buffer
    ok (pool', server'', started, acts))
  | true ↦ (do
    (pool', server'') ← start_accept pool server uuid buffer
    ok (pool', server'', s, []))
]

-- ClearSession(uuid)
unfoldable pub clear_session : CServer → List ℕ → CServer
clear_session server uuid = record server { sessions = erase_session uuid server.sessions }

-- CServer(io_context, port)
unfoldable pub new_server : AsioIoServicePool → List ℕ → List ℕ → Exec (AsioIoServicePool × CServer)
unfolding start_accept
new_server pool uuid buffer =
    start_accept pool (record { sessions = []; accepting = [] }) uuid buffer
