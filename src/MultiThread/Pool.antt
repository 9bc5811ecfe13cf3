-- ===== src/MultiThread/Pool.antt =====
-- Server-version-3-multi-thread/AsioIOServicePool.h and AsioIOServicePool.cpp. The order of handing
-- out is that of version 3; Stop also stops the contexts.
use async_echo_server.Base.{
  threw, ℕ, ◌≡◌, refl, ap, inl, inr, Bool, true, false, Option, none, some, List, [], ◌∷◌, map,
  replicate, length, Exec, ok, corrupt, ◌>>=◌, ltb, ◌==◌, if◌then◌else◌, zero, suc, Bool-cases,
}
use async_echo_server.Pool as V3
use async_echo_server.Platform.{add_size}
use async_echo_server.Pool.{IoContext, fresh_context, returns_from_run}

pub record AsioIoServicePool : Type 0 where
  pub io_services : List IoContext
  pub works : List Bool
  pub threads : List Bool
  pub next_io_service : ℕ

-- AsioIOServicePool(size)
unfoldable pub new_pool : ℕ → AsioIoServicePool
new_pool size = record {
  io_services = replicate size fresh_context;
  works = replicate size true;
  threads = replicate size true;
  next_io_service = 0;
}

-- GetIOService
unfoldable pub get_io_service : AsioIoServicePool → Exec (ℕ × AsioIoServicePool)
get_io_service pool =
    let next = add_size pool.next_io_service 1 in
    if ltb pool.next_io_service (length pool.io_services)
    then ok (
      pool.next_io_service,
      record pool { next_io_service = if next == length pool.io_services then 0 else next },
    )
    else corrupt

-- The loop over `_works`: the work of index i is that of context i, and to ask a null pointer for
-- its context is a fault.
unfoldable pub stop_contexts : List Bool → List IoContext → Exec (List IoContext)
stop_contexts [] contexts = ok contexts
stop_contexts (w ∷ works) [] = corrupt
stop_contexts (false ∷ works) (c ∷ contexts) = corrupt
stop_contexts (true ∷ works) (c ∷ contexts) = do
  rest ← stop_contexts works contexts
  ok (record c { stopped = true } ∷ rest)

-- Which threads return from `run()`, of each context with its work. Of a context that was stopped this
-- does not change any more.
unfoldable returns_all : List IoContext → List Bool → List Bool
unfolding returns_from_run
returns_all (c ∷ contexts) (w ∷ workers) = returns_from_run c w ∷ returns_all contexts workers
returns_all [] workers = []
returns_all (c ∷ contexts) [] = []

-- The joins of the threads, in their order: `none` is a join of a thread that has not returned, and a
-- thread that is not joinable throws. The first list says which threads return.
unfoldable join_all : List Bool → List Bool → Exec (Option (List Bool))
join_all returns [] = ok (some [])
join_all returns (false ∷ threads) = threw
join_all [] (true ∷ threads) = ok none
join_all (false ∷ returns) (true ∷ threads) = ok none
join_all (true ∷ returns) (true ∷ threads) = do
  rest ← join_all returns threads
  ok (elim rest [ none ↦ none | some ts ↦ some (false ∷ ts) ])

-- Stop
unfoldable pub stop : AsioIoServicePool → Exec (Option AsioIoServicePool)
unfolding stop_contexts returns_all join_all
stop pool = do
  contexts ← stop_contexts pool.works pool.io_services
  let reset = map (λ w. false) pool.works
  joined ← join_all (returns_all contexts reset) pool.threads
  ok (elim joined [
    | none ↦ none
    | some threads ↦ some (record pool { io_services = contexts; works = reset; threads = threads })
  ])

-- A pool as the constructor leaves it, whatever has been started on its contexts since.
pub record IsRunning (pool : AsioIoServicePool) : Type 0 where
  pub all_work : pool.works ≡ replicate (length pool.io_services) true
  pub all_threads : pool.threads ≡ replicate (length pool.io_services) true

abbrev pub mark_stopped : IoContext → IoContext
mark_stopped c = record c { stopped = true }

abbrev pub stopped_contexts : List IoContext → List IoContext
stopped_contexts cs = map mark_stopped cs

stop_contexts-all :
    (cs : List IoContext) → stop_contexts (replicate (length cs) true) cs ≡ ok (stopped_contexts cs)
unfolding stop_contexts replicate
stop_contexts-all [] = refl
stop_contexts-all (c ∷ cs) = rw (stop_contexts-all cs)

stopped-returns :
    (cs : List IoContext)
    → returns_all (stopped_contexts cs) (map (λ w. false) (replicate (length cs) true))
      ≡ replicate (length cs) true
unfolding returns_all returns_from_run replicate
stopped-returns [] = refl
stopped-returns (c ∷ cs) = ap (◌∷◌ true) (stopped-returns cs)

joins-all : (n : ℕ) → join_all (replicate n true) (replicate n true) ≡ ok (some (replicate n false))
unfolding join_all replicate
joins-all zero = refl
joins-all (suc n) = rw (joins-all n)

-- Stop on a pool that still has all its work and threads returns, whatever is outstanding on its
-- contexts: every context is stopped, no work is left and every thread is joined.
pub stop-joins :
    (pool : AsioIoServicePool)
    → IsRunning pool
    → stop pool
      ≡ ok (
          some (record pool {
            io_services = stopped_contexts pool.io_services;
            works = map (λ w. false) pool.works;
            threads = replicate (length pool.io_services) false;
          }))
unfolding stop
stop-joins pool run = rw (
  run.all_work,
  stop_contexts-all pool.io_services,
  stopped-returns pool.io_services,
  run.all_threads,
  joins-all (length pool.io_services),
  run.all_work,
)

-- GetIOService of the multi-threaded server hands out what that of version 3 does on the same
-- contexts, and moves to the same next index.
pub get_io_service-Pool :
    (pool : AsioIoServicePool)
    → get_io_service pool ≡ (do
      r ← V3.get_io_service (record {
        io_services = pool.io_services;
        workers = pool.works;
        threads = pool.threads;
        next_io_service = pool.next_io_service;
      })
      ok (r.0, record pool { next_io_service = r.1.next_io_service }))
unfolding get_io_service V3.get_io_service
get_io_service-Pool pool = elim (Bool-cases (ltb pool.next_io_service (length pool.io_services))) [
  | inl t ↦ rw t
  | inr f ↦ rw f
]
