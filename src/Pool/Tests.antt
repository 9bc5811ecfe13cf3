-- ===== src/Pool/Tests.antt =====
-- A pool of three contexts.
use async_echo_server.Base.{ℕ, ◌≡◌, refl, false, List, [], ◌∷◌, ◌++◌, replicate}
use async_echo_server.Pool.{fresh_context, AsioIoServicePool, new_pool, returns_from_run}
use async_echo_server.Pool.Turns.{range, rounds}
use async_echo_server.Pool.Stop.{
  PoolThread, in_run, returned, joined, Progress, joining, threads_of, reset_work, returns,
  completes, ticks, joins, Run, here, next,
}
use async_echo_server.Pool.Stop.Settles.{IsRunning, Accounted, stop-waits}

in_turn : rounds 3 2 ++ range 0 1 ≡ 0 ∷ 1 ∷ 2 ∷ 0 ∷ 1 ∷ 2 ∷ 0 ∷ []
unfolding rounds range
in_turn = refl

-- One context has an accept outstanding.
abbrev busy_pool : AsioIoServicePool
busy_pool = record (new_pool 2) {
  io_services = fresh_context ∷ record fresh_context { outstanding = 1 } ∷ [];
}

busy_pool-IsRunning : IsRunning busy_pool
unfolding new_pool replicate
busy_pool-IsRunning = record { live = (refl, (refl, tt)); all_work = refl; all_threads = refl }

abbrev with_operations : ℕ → ℕ → ℕ → PoolThread
with_operations at_call outstanding completed = record {
  context = record { outstanding = outstanding; stopped = false };
  work = false;
  stage = in_run;
  at_call = at_call;
  completed = completed;
}

-- The accept completes, while the first thread returns and is joined.
abbrev half_way : Progress
half_way =
    joining (record (with_operations 0 0 0) { stage = joined } ∷ []) (with_operations 1 0 1 ∷ [])

half_way-Run : Run (reset_work busy_pool) half_way
unfolding reset_work threads_of new_pool replicate returns_from_run
half_way-Run =
    next
      (next
        (next here (
          ticks [] (with_operations 1 1 0 ∷ []) [] (with_operations 0 0 0)
            (record (with_operations 0 0 0) { stage = returned }) refl (returns refl refl refl)
            refl))
        (ticks (record (with_operations 0 0 0) { stage = returned } ∷ []) [] []
          (with_operations 1 1 0) (with_operations 1 0 1) refl (completes 0 0 refl refl refl) refl))
      (joins [] (with_operations 1 0 1 ∷ []) (record (with_operations 0 0 0) { stage = returned })
        refl refl refl)

stop-waits_example :
    Accounted busy_pool half_way × ((end : List PoolThread) × Run half_way (joining end []))
stop-waits_example = stop-waits busy_pool {t = half_way} busy_pool-IsRunning half_way-Run
