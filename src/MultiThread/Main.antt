-- ===== src/MultiThread/Main.antt =====
-- Server-version-3-multi-thread/main.cpp: the context on which main accepts, and the handler of the
-- signals, which also stops the pool.
use async_echo_server.Base.{
  ℕ, suc, ◌<◌, ◌≡◌, Bool, true, false, Option, none, some, List, map, replicate, length, Exec, ok,
  ◌>>=◌, arith, refl, [], ◌∷◌, ap, sym, length-replicate, lt→ltb, if◌then◌else◌, ◌==◌, eq_false,
}
use async_echo_server.Pool.{IoContext, fresh_context, returns_from_run}
use async_echo_server.MultiThread.Pool.{
  AsioIoServicePool, new_pool, get_io_service, stop, IsRunning, stopped_contexts, stop-joins,
}
use async_echo_server.MultiThread.Server.{CServer, new_server}
use async_echo_server.MultiThread.Server.InTurn.{contexts, start_accept-made}
use async_echo_server.Platform.{add_size}

pub record Program : Type 0 where
  pub pool : AsioIoServicePool
  pub io_context : IoContext
  pub server : CServer

-- `signals.async_wait`, or an `async_accept`.
abbrev pub starts_operation : IoContext → IoContext
starts_operation c = record c { outstanding = suc c.outstanding }

-- The body of main up to `io_context.run()`: the wait for a signal, and the accept that the
-- constructor of the server starts.
unfoldable pub start_main : ℕ → List ℕ → List ℕ → Exec Program
start_main size uuid buffer = do
  (pool, server) ← new_server (new_pool size) uuid buffer
  ok (record {
    pool = pool;
    io_context = starts_operation (starts_operation fresh_context);
    server = server;
  })

-- The handler of `async_wait`, whatever its arguments: `none` is a handler that does not return.
unfoldable pub handle_signal : Program → Exec (Option Program)
handle_signal program = do
  joined ← stop program.pool
  ok (elim joined [
    | none ↦ none
    | some pool ↦
        some (record program {
          io_context = record program.io_context { stopped = true };
          pool = pool;
        })
  ])

-- `io_context.run()`, for which there is no work object.
unfoldable pub run_returns : Program → Bool
unfolding returns_from_run
run_returns program = returns_from_run program.io_context false

-- A program whose pool still has all its work and threads, and whose context has an operation
-- outstanding and is not stopped: the run of main goes on. The handler of a signal returns, whatever is
-- outstanding on the contexts of the pool: it has then stopped each of them and joined each thread of
-- the pool, and the run of main ends.
pub handle_signal-ends :
    (program : Program)
    → IsRunning program.pool
    → program.io_context.stopped ≡ false
    → 0 < program.io_context.outstanding
    → (run_returns program ≡ false)
      × ((after : Program) × (handle_signal program ≡ ok (some after))
          × (run_returns after ≡ true)
          × (after.pool.io_services ≡ stopped_contexts program.pool.io_services)
          × (after.pool.threads ≡ replicate (length program.pool.io_services) false))
unfolding run_returns handle_signal returns_from_run
handle_signal-ends program running going busy = (
  rw (going, eq_false program.io_context.outstanding 0 (omega arith)),
  (
    record program {
      io_context = record program.io_context { stopped = true };
      pool = record program.pool {
        io_services = stopped_contexts program.pool.io_services;
        works = map (λ w. false) program.pool.works;
        threads = replicate (length program.pool.io_services) false;
      };
    },
    rw (stop-joins program.pool running),
    refl,
    refl,
    refl,
  ),
)

-- main starts with a pool of this kind and with two operations outstanding, and the first session is
-- on the first context.
pub start_main-IsRunning :
    (size : ℕ) (uuid buffer : List ℕ)
    → 0 < size
    → (program : Program) × (start_main size uuid buffer ≡ ok program)
      × IsRunning program.pool
      × (program.io_context.stopped ≡ false)
      × (program.io_context.outstanding ≡ 2)
      × (contexts program.server ≡ 0 ∷ [])
unfolding start_main new_server new_pool get_io_service
start_main-IsRunning size uuid buffer pos =
    let next : ℕ = if add_size 0 1 == size then 0 else add_size 0 1 in
    let pool : AsioIoServicePool = record (new_pool size) { next_io_service = next } in
    let first : get_io_service (new_pool size) ≡ ok (0, pool) =
      rw (length-replicate size fresh_context, lt→ltb 0 size pos) refl in
    let (s, begun) =
      start_accept-made (new_pool size) pool (record { sessions = []; accepting = [] }) uuid buffer
        0 first in
    (
      record {
        pool = pool;
        io_context = starts_operation (starts_operation fresh_context);
        server = record { sessions = []; accepting = (0, s) ∷ [] };
      },
      rw begun,
      record {
        all_work = ap (λ n. replicate n true) (sym (length-replicate size fresh_context));
        all_threads = ap (λ n. replicate n true) (sym (length-replicate size fresh_context));
      },
      refl,
      refl,
      refl,
    )
