-- ===== src/Pool.antt =====
-- Server-version-3/AsioServicePool.h and AsioServicePool.cpp: the contexts that run in a thread each
-- and are handed out in turn.
pub mod Turns
pub mod Stop
mod Tests
use async_echo_server.Base.{
  threw, ◌>>=◌, false, ℕ, zero, suc, ◌+◌, Bool, true, false, Option, none, some, List, [], ◌∷◌, map,
  replicate, length, Exec, ok, corrupt, ltb, ◌==◌, if◌then◌else◌,
}
use async_echo_server.Platform.{add_size}

-- An `io_context`: how many operations have been started on it and have not completed, and whether
-- `stop()` was called.
pub record IoContext : Type 0 where
  pub outstanding : ℕ
  pub stopped : Bool

abbrev pub fresh_context : IoContext
fresh_context = record { outstanding = 0; stopped = false }

-- `workers` says which pointers to a `Work` are not null, `threads` which threads are joinable.
pub record AsioIoServicePool : Type 0 where
  pub io_services : List IoContext
  pub workers : List Bool
  pub threads : List Bool
  pub next_io_service : ℕ

-- AsioIOServicePool(size)
unfoldable pub new_pool : ℕ → AsioIoServicePool
new_pool size = record {
  io_services = replicate size fresh_context;
  workers = replicate size true;
  threads = replicate size true;
  next_io_service = 0;
}

-- GetIOService, which returns the context of this index. A vector is not asked beyond its end
-- without a fault.
unfoldable pub get_io_service : AsioIoServicePool → Exec (ℕ × AsioIoServicePool)
get_io_service pool =
    let next = add_size pool.next_io_service 1 in
    if ltb pool.next_io_service (length pool.io_services)
    then ok (
      pool.next_io_service,
      record pool { next_io_service = if next == length pool.io_services then 0 else next },
    )
    else corrupt

-- `run()` of a context returns once the context was stopped, or has no work and no operation.
unfoldable pub returns_from_run : IoContext → Bool → Bool
returns_from_run context work =
    if context.stopped then true else if work then false else context.outstanding == 0
