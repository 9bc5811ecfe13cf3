-- ===== src/Pool/Stop.antt =====
-- AsioIOServicePool::Stop of version 3: a step relation of its joins and of the contexts, which go on
-- while it waits.
pub mod Settles
use async_echo_server.Base.{
  ℕ, suc, ◌+◌, ◌≡◌, Bool, true, false, List, [], ◌∷◌, ◌++◌, map, if◌then◌else◌,
}
use async_echo_server.Pool.{IoContext, AsioIoServicePool, returns_from_run}

-- A thread of the pool: in `run()`; its function has returned; or not joinable any more.
pub data ThreadStage : Type 0 where
  in_run returned joined : ThreadStage

-- A thread with the context that it runs and its work. `at_call` and `completed` count: the operations
-- outstanding when `Stop` was called, and those completed since.
pub record PoolThread : Type 0 where
  pub context : IoContext
  pub work : Bool
  pub stage : ThreadStage
  pub at_call : ℕ
  pub completed : ℕ

-- `Stop` has joined the first threads and not the others; or a join has thrown.
pub data Progress : Type 0 where
  joining : List PoolThread → List PoolThread → Progress
  threw : Progress

-- The threads of a pool, each with its context and work.
unfoldable pub threads_of : List IoContext → List Bool → List Bool → List PoolThread
threads_of (c ∷ contexts) (w ∷ workers) (t ∷ threads) =
    record {
      context = c;
      work = w;
      stage = if t then in_run else joined;
      at_call = c.outstanding;
      completed = 0;
    }
    ∷ threads_of contexts workers threads
threads_of [] workers threads = []
threads_of (c ∷ contexts) [] threads = []
threads_of (c ∷ contexts) (w ∷ workers) [] = []

-- `Stop` once it has reset the pointers to the work, before the first join.
unfoldable pub reset_work : AsioIoServicePool → Progress
unfolding threads_of
reset_work pool =
    joining [] (threads_of pool.io_services (map (λ w. false) pool.workers) pool.threads)

-- What goes on with a context: an operation is started; the thread runs the handler of a completed
-- operation, which may start `more`; or `run()` returns.
pub data Tick (w v : PoolThread) : Type 0 where
  starts :
      v ≡ record w { context = record w.context { outstanding = suc w.context.outstanding } }
      → Tick w v
  completes :
      (n more : ℕ)
      → w.stage ≡ in_run
      → w.context.outstanding ≡ suc n
      → v ≡ record w {
        context = record w.context { outstanding = n + more };
        completed = suc w.completed;
      }
      → Tick w v
  returns :
      w.stage ≡ in_run
      → returns_from_run w.context w.work ≡ true
      → v ≡ record w { stage = returned }
      → Tick w v

-- `t.join()` ends once the function of the next thread has returned, and throws where the thread is
-- not joinable.
pub data Step (s t : Progress) : Type 0 where
  ticks :
      (before after done : List PoolThread) (w v : PoolThread)
      → s ≡ joining done (before ++ w ∷ after)
      → Tick w v
      → t ≡ joining done (before ++ v ∷ after)
      → Step s t
  joins :
      (done left : List PoolThread) (w : PoolThread)
      → s ≡ joining done (w ∷ left)
      → w.stage ≡ returned
      → t ≡ joining (done ++ record w { stage = joined } ∷ []) left
      → Step s t
  fails :
      (done left : List PoolThread) (w : PoolThread)
      → s ≡ joining done (w ∷ left)
      → w.stage ≡ joined
      → t ≡ threw
      → Step s t

pub data Run (s : Progress) : Progress → Type 0 where
  here : Run s s
  next : {t u : Progress} → Run s t → Step t u → Run s u
