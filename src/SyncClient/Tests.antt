-- ===== src/SyncClient/Tests.antt =====
-- The request of the code, on a new session.
use async_echo_server.Base.{ℕ, ◌/◌, ◌%◌, ◌≡◌, refl, false, List, [], ◌∷◌, ◌++◌, ok, arith, length}
use async_echo_server.Platform.Examples.{little_endian}
use async_echo_server.Version2.Examples.{long_wire}
use async_echo_server.Version2.Replies.{echo_bytes}
use async_echo_server.Version2.Session.{CSession, clear_session}
use async_echo_server.Version2.Session.Read.{handle_read, returned}
use async_echo_server.Version2.Session.History.{arrive}
use async_echo_server.Version2.Session.Connect.{started, started-AtHeader}
use async_echo_server.SyncClient.{LittleEndian, request_message, send_request, read_reply}
use async_echo_server.SyncClient.Talk.{request-refused}

abbrev low_bytes : LittleEndian little_endian
low_bytes = record {
  size_bytes = λ n. n % 256 ∷ n / 256 ∷ 0 ∷ 0 ∷ 0 ∷ 0 ∷ 0 ∷ 0 ∷ [];
  size_bytes-short = λ n h. refl;
  load-low = λ a b h k. omega arith;
}

request-refused_example :
    (sent : List ℕ) × (send_request low_bytes request_message ≡ ok sent)
    × ((s' : CSession) × (handle_read little_endian long_wire
            (arrive (started (7 ∷ [])) sent)
            false
            (length sent)
          ≡ returned s' (clear_session ∷ [])))
    × (read_reply little_endian (echo_bytes request_message ++ 9 ∷ [])
        ≡ ok ([], request_message ++ 9 ∷ []))
request-refused_example =
    request-refused low_bytes long_wire (started (7 ∷ [])) request_message (9 ∷ [])
      (started-AtHeader (7 ∷ [])) refl (omega arith) (omega arith)
