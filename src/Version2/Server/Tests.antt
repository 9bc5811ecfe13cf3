-- ===== src/Version2/Server/Tests.antt =====
-- A server that accepts one session, whose first read fails.
use async_echo_server.Base.{
  ℕ, ◌≡◌, refl, true, false, List, [], ◌∷◌, ok, arith, All, replicate, drop,
}
use async_echo_server.Platform.Examples.{little_endian}
use async_echo_server.Memory.{zeros, memset, new_chars}
use async_echo_server.Base.{same}
use async_echo_server.Server.{insert_session, erase_session}
use async_echo_server.Version2.Examples.{long_wire}
use async_echo_server.Version2.Session.{
  async_read_some, CSession, new_session, new_data_node, start, rearm, close,
}
use async_echo_server.Version2.Session.Read.{handle_read}
use async_echo_server.Version2.Session.Connect.{started}
use async_echo_server.Version2.Server.{
  CServer, start_accept, handle_accept, clear_session, new_server,
}
use async_echo_server.Version2.Server.House.{House, Reach, opens, next, accepts, reads_chunk}
use async_echo_server.Version2.Server.Reading.{Good, listens_and_reads}

abbrev fresh : List ℕ → CSession
fresh uuid = started uuid

abbrev opened : CServer
opened = record { sessions = []; accepting = fresh (1 ∷ []) ∷ [] }

abbrev accepted : CServer
accepted = record { sessions = (1 ∷ [], 1 ∷ []) ∷ []; accepting = fresh (2 ∷ []) ∷ [] }

abbrev dropped : House
dropped = record {
  server = record accepted { sessions = [] };
  conns = record { session = record (fresh (1 ∷ [])) { b_close = true }; reading = 0 } ∷ [];
}

is_open : new_server (1 ∷ []) (zeros 2048) ≡ ok opened
unfolding new_server start_accept new_session new_data_node new_chars
is_open = refl

is_accepted :
    handle_accept (record opened { accepting = [] }) (fresh (1 ∷ [])) false (2 ∷ []) (zeros 2048)
    ≡ ok (accepted, fresh (1 ∷ []), async_read_some ∷ [])
unfolding handle_accept start rearm memset start_accept new_session new_data_node new_chars
    insert_session zeros replicate drop
is_accepted = refl

history : Reach little_endian long_wire dropped
unfolding handle_read close clear_session erase_session same
history =
    next
      (next (opens (1 ∷ []) (zeros 2048) opened is_open) (
        accepts (fresh (1 ∷ [])) false (2 ∷ []) (zeros 2048) accepted (fresh (1 ∷ []))
          (async_read_some ∷ []) refl is_accepted refl tt refl))
      (reads_chunk (record { session = fresh (1 ∷ []); reading = 1 }) (zeros 2048) true 1 _ _
        (omega arith) (omega arith) refl ([], [], refl, refl))

listens_and_reads_example :
    ((s : CSession) × (dropped.server.accepting ≡ s ∷ []))
    × All (Good dropped.server.sessions) dropped.conns
listens_and_reads_example = listens_and_reads little_endian long_wire history
