-- ===== src/Server/Tests.antt =====
-- A server that accepts one session, which then fails to read.
use async_echo_server.Session.Receive.Settles.{handle_read-error}
use async_echo_server.MsgNode.Laws.{fresh_node, new_msg_node_lem}
use async_echo_server.Base.{ℕ, ◌≡◌, refl, true, false, none, List, [], ◌∷◌, ok, arith, All}
use async_echo_server.Platform.Examples.{little_endian}
use async_echo_server.Memory.{zeros, length-zeros, memset_all}
use async_echo_server.Session.{
  Session, async_read, close_socket, clear_session, new_session, start, rearm,
}
use async_echo_server.Base.{same}
use async_echo_server.Server.{
  clear_session as remove_session, CServer, insert_session, erase_session, start_accept,
  handle_accept, new_server,
}
use async_echo_server.Server.House.{House, Reach, opens, next, accepts, reads_chunk}
use async_echo_server.Server.Reading.{Good, always_accepting, read_or_removed}

abbrev made : List ℕ → Session
made uuid = record {
  uuid = uuid;
  buffer = zeros 2048;
  b_close = false;
  send_que = [];
  recv_msg_node = none;
  b_head_parse = false;
  recv_head_node = fresh_node 4;
}

new_session-made : (uuid : List ℕ) → new_session uuid (zeros 2048) ≡ ok (made uuid)
unfolding new_session
new_session-made uuid = rw (new_msg_node_lem 4 (omega arith))

start-made : (uuid : List ℕ) → start (made uuid) ≡ ok (made uuid, async_read ∷ [])
unfolding start rearm
start-made uuid = rw (memset_all (zeros 2048) 2048 (length-zeros 2048))

abbrev first_server : CServer
first_server = record { sessions = []; accepting = made (1 ∷ []) ∷ [] }

new_server-first : new_server (1 ∷ []) (zeros 2048) ≡ ok first_server
unfolding new_server start_accept
new_server-first = rw (new_session-made (1 ∷ []))

abbrev second_server : CServer
second_server = record { sessions = (1 ∷ [], 1 ∷ []) ∷ []; accepting = made (2 ∷ []) ∷ [] }

accept-first :
    handle_accept
      (record first_server { accepting = [] })
      (made (1 ∷ []))
      false
      (2 ∷ [])
      (zeros 2048)
    ≡ ok (second_server, made (1 ∷ []), async_read ∷ [])
unfolding handle_accept start_accept insert_session
accept-first = rw (start-made (1 ∷ []), new_session-made (2 ∷ []))

abbrev one_session : House
one_session = record {
  server = second_server;
  conns = record { session = made (1 ∷ []); reading = 1 } ∷ [];
}

abbrev closed : Session
closed = record (made (1 ∷ [])) { b_close = true }

abbrev no_session : House
no_session = record {
  server = record second_server { sessions = [] };
  conns = record { session = closed; reading = 0 } ∷ [];
}

first-Reach : Reach little_endian one_session
unfolding same
first-Reach = next (opens (1 ∷ []) (zeros 2048) first_server new_server-first) (
    accepts (made (1 ∷ [])) false (2 ∷ []) (zeros 2048) second_server (made (1 ∷ []))
      (async_read ∷ []) refl accept-first refl tt refl)

no_session-Reach : Reach little_endian no_session
unfolding same erase_session remove_session
no_session-Reach = next first-Reach (
    reads_chunk (record { session = made (1 ∷ []); reading = 1 }) (zeros 2048) true 1 closed
      (close_socket ∷ clear_session ∷ []) (omega arith) (omega arith)
      (handle_read-error little_endian (made (1 ∷ [])) 1) ([], [], refl, refl))

always_accepting_example : (s : Session) × (no_session.server.accepting ≡ s ∷ [])
always_accepting_example = always_accepting little_endian no_session-Reach

read_or_removed_example : All (Good no_session.server.sessions) no_session.conns
read_or_removed_example = read_or_removed little_endian no_session-Reach
