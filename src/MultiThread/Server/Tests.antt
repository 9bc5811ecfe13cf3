-- ===== src/MultiThread/Server/Tests.antt =====
-- A server on a pool of two contexts, with an accept that succeeds and one that fails, and the end of
-- such a program.
use async_echo_server.Base.{
  ◌≡◌, refl, true, false, some, List, [], ◌∷◌, ◌++◌, ok, ◌>>=◌, replicate, arith,
}
use async_echo_server.Memory.{zeros, length-zeros}
use async_echo_server.Pool.{fresh_context}
use async_echo_server.Pool.Turns.{range, rounds}
use async_echo_server.Session.Receive.Examples.{waiting}
use async_echo_server.MultiThread.Pool.{new_pool, stopped_contexts}
use async_echo_server.MultiThread.Server.{CServer, new_server}
use async_echo_server.MultiThread.Server.InTurn.{
  Accepted, accepts, contexts, moved, accepts-in_turn,
}
use async_echo_server.MultiThread.Main.{
  Program, starts_operation, handle_signal, run_returns, handle_signal-ends,
}

abbrev two_accepts : List Accepted
two_accepts =
    record { session = waiting; error = false; uuid = 8 ∷ []; buffer = zeros 2048 }
    ∷ record { session = waiting; error = true; uuid = 9 ∷ []; buffer = zeros 2048 }
    ∷ []

accepts-in_turn_example :
    (server : CServer) × ((do
      (pool, opened) ← new_server (new_pool 2) (7 ∷ []) (zeros 2048)
      accepts pool opened two_accepts)
      ≡ ok (moved (new_pool 2) 1, server))
    × (contexts server ≡ rounds 2 1 ++ range 0 1)
accepts-in_turn_example =
    accepts-in_turn 2 1 1 (7 ∷ []) (zeros 2048) two_accepts (omega arith) (omega arith) refl
      (length-zeros 2048, (length-zeros 2048, tt))

in_turn : rounds 2 1 ++ range 0 1 ≡ 0 ∷ 1 ∷ 0 ∷ []
unfolding rounds range
in_turn = refl

-- A context of the pool has a read outstanding.
abbrev serving : Program
serving = record {
  pool = record (new_pool 1) { io_services = starts_operation fresh_context ∷ [] };
  io_context = starts_operation (starts_operation fresh_context);
  server = record { sessions = []; accepting = [] };
}

handle_signal-ends_example :
    (run_returns serving ≡ false)
    × ((after : Program) × (handle_signal serving ≡ ok (some after))
        × (run_returns after ≡ true)
        × (after.pool.io_services ≡ stopped_contexts (starts_operation fresh_context ∷ []))
        × (after.pool.threads ≡ replicate 1 false))
unfolding new_pool replicate
handle_signal-ends_example =
    handle_signal-ends serving (record { all_work = refl; all_threads = refl }) refl (omega arith)
