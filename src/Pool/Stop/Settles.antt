-- ===== src/Pool/Stop/Settles.antt =====
-- How long AsioIOServicePool::Stop waits.
use async_echo_server.Base.{
  ◌⊎◌, inl, inr, ℕ, zero, suc, ◌+◌, ◌≤◌, ◌≡◌, ◌≢◌, refl, ap, sym, ◌∙◌, subst, true, false, List, [],
  ◌∷◌, ◌++◌, map, length, replicate, All, All-swap, All-at, All-append, map-append, append_assoc,
  arith,
}
use async_echo_server.Pool.{IoContext, AsioIoServicePool, returns_from_run}
use async_echo_server.Pool.Stop.{
  ThreadStage, in_run, returned, joined, PoolThread, Progress, joining, threw, threads_of,
  reset_work, Tick, starts, completes, returns, Step, ticks, joins, fails, Run, here, next,
}

abbrev pub IsLive : IoContext → Type 0
IsLive c = c.stopped ≡ false

-- A pool as the constructor leaves it, whatever has been started on its contexts since.
pub record IsRunning (pool : AsioIoServicePool) : Type 0 where
  pub live : All IsLive pool.io_services
  pub all_work : pool.workers ≡ replicate (length pool.io_services) true
  pub all_threads : pool.threads ≡ replicate (length pool.io_services) true

-- As many operations have completed since the call as were outstanding then, or more.
abbrev pub IsPaid : PoolThread → Type 0
IsPaid w = w.at_call ≤ w.completed

-- Of the joined threads this holds; and the counts are those of the pool.
abbrev pub Accounted : AsioIoServicePool → Progress → Type 0
Accounted pool (joining done left) =
    All IsPaid done
    × (map (λ w. w.at_call) (done ++ left) ≡ map (λ c. c.outstanding) pool.io_services)
Accounted pool threw = ⊥

-- A thread that is not joined yet.
record Waited (w : PoolThread) : Type 0 where
  no_work : w.work ≡ false
  live : w.context.stopped ≡ false
  joinable : w.stage ≢ joined
  owed : w.at_call ≤ w.context.outstanding + w.completed
  paid : w.stage ≡ returned → w.at_call ≤ w.completed

abbrev Inv : AsioIoServicePool → Progress → Type 0
Inv pool (joining done left) = Accounted pool (joining done left) × All Waited left
Inv pool threw = ⊥

Tick-at_call : {w v : PoolThread} → Tick w v → v.at_call ≡ w.at_call
Tick-at_call (starts e) = ap (λ k. k.at_call) e
Tick-at_call (completes n more s o e) = ap (λ k. k.at_call) e
Tick-at_call (returns s r e) = ap (λ k. k.at_call) e

quiet :
    (w : PoolThread)
    → w.work ≡ false
    → w.context.stopped ≡ false
    → returns_from_run w.context w.work ≡ true
    → w.context.outstanding ≡ 0
unfolding returns_from_run
quiet w off live r = ground (arith, off, live, r)

in_run≢returned : in_run ≢ returned
in_run≢returned e = cc

in_run≢joined : in_run ≢ joined
in_run≢joined e = cc

returned≢joined : returned ≢ joined
returned≢joined e = cc

Tick-Waited : {w v : PoolThread} → Tick w v → Waited w → Waited v
Tick-Waited {w} (starts e) h = rw e (record {
  no_work = h.no_work;
  live = h.live;
  joinable = h.joinable;
  owed = omega (arith, h.owed);
  paid = h.paid;
})
Tick-Waited {w} (completes n more s o e) h = rw e (record {
  no_work = h.no_work;
  live = h.live;
  joinable = h.joinable;
  owed = omega (arith, h.owed, o);
  paid = λ t. absurd (in_run≢returned (sym s ∙ t));
})
Tick-Waited {w} (returns s r e) h = rw e (record {
  no_work = h.no_work;
  live = h.live;
  joinable = returned≢joined;
  owed = h.owed;
  paid = λ t. omega (arith, h.owed, quiet w h.no_work h.live r);
})

map-swap :
    (before after : List PoolThread) (w v : PoolThread)
    → v.at_call ≡ w.at_call
    → map (λ k. k.at_call) (before ++ v ∷ after) ≡ map (λ k. k.at_call) (before ++ w ∷ after)
map-swap [] after w v e = ap (λ n. n ∷ map (λ k. k.at_call) after) e
map-swap (x ∷ before) after w v e = ap (◌∷◌ x.at_call) (map-swap before after w v e)

Step-Inv : (pool : AsioIoServicePool) {s t : Progress} → Step s t → Inv pool s → Inv pool t
Step-Inv pool (ticks before after done w v e tick f) h =
    let ((paid, counts), waited) = subst (Inv pool) e h in
    rw f (
      (
        paid,
        map-append (λ k. k.at_call) done (before ++ v ∷ after)
            ∙ ap (◌++◌ (map (λ k. k.at_call) done)) (map-swap before after w v (Tick-at_call tick))
            ∙ sym (map-append (λ k. k.at_call) done (before ++ w ∷ after))
            ∙ counts,
      ),
      All-swap before after w v (λ a k. k) (Tick-Waited tick (All-at Waited before after w waited))
          waited,
    )
Step-Inv pool (joins done left w e s f) h =
    let ((paid, counts), (first, waited)) = subst (Inv pool) e h in
    rw f (
      (
        All-append IsPaid done (record w { stage = joined } ∷ []) paid (first.paid s, tt),
        ap (map (λ k. k.at_call)) (append_assoc done (record w { stage = joined } ∷ []) left)
            ∙ map-append (λ k. k.at_call) done (record w { stage = joined } ∷ left)
            ∙ sym (map-append (λ k. k.at_call) done (w ∷ left))
            ∙ counts,
      ),
      waited,
    )
Step-Inv pool (fails done left w e s f) h =
    let (accounted, (first, waited)) = subst (Inv pool) e h in absurd (first.joinable s)

Run-Inv : (pool : AsioIoServicePool) {s t : Progress} → Run s t → Inv pool s → Inv pool t
Run-Inv pool here h = h
Run-Inv pool (next r st) h = Step-Inv pool st (Run-Inv pool r h)

all_reset : List IoContext → List PoolThread
all_reset cs =
    threads_of cs (map (λ w. false) (replicate (length cs) true)) (replicate (length cs) true)

all_reset-Waited : (cs : List IoContext) → All IsLive cs → All Waited (all_reset cs)
unfolding all_reset threads_of replicate
all_reset-Waited [] h = tt
all_reset-Waited (c ∷ cs) (l, h) = (
  record {
    no_work = refl;
    live = l;
    joinable = in_run≢joined;
    owed = omega arith;
    paid = λ t. absurd (in_run≢returned t);
  },
  all_reset-Waited cs h,
)

all_reset-counts :
    (cs : List IoContext) → map (λ w. w.at_call) (all_reset cs) ≡ map (λ c. c.outstanding) cs
unfolding all_reset threads_of replicate
all_reset-counts [] = refl
all_reset-counts (c ∷ cs) = ap (◌∷◌ c.outstanding) (all_reset-counts cs)

reset_work-Inv : (pool : AsioIoServicePool) → IsRunning pool → Inv pool (reset_work pool)
unfolding reset_work all_reset
reset_work-Inv pool run =
    rw (run.all_work, run.all_threads)
      ((tt, all_reset-counts pool.io_services), all_reset-Waited pool.io_services run.live)

lead : {s t u : Progress} → Run s t → Run t u → Run s u
lead r here = r
lead r (next q st) = next (lead r q) st

ThreadStage-cases : (t : ThreadStage) → t ≢ joined → (t ≡ in_run) ⊎ (t ≡ returned)
ThreadStage-cases in_run h = inl refl
ThreadStage-cases returned h = inr refl
ThreadStage-cases joined h = absurd (h refl)

module _ (done left : List PoolThread) where
  -- The next join comes to its end.
  abbrev Passes : PoolThread → Type 0
  Passes w = (v : PoolThread) × Run (joining done (w ∷ left)) (joining (done ++ v ∷ []) left)

  join_returned : (w : PoolThread) → w.stage ≡ returned → Passes w
  join_returned w s = (record w { stage = joined }, next here (joins done left w refl s refl))

  tick : {w v : PoolThread} → Tick w v → Passes v → Passes w
  tick {w} {v} t (u, r) = (u, lead (next here (ticks [] left done w v refl t refl)) r)

  run_returns :
      (w : PoolThread)
      → Waited w
      → w.context.outstanding ≡ 0
      → returns_from_run w.context w.work ≡ true
  unfolding returns_from_run
  run_returns w h o = ground (arith, h.no_work, h.live, o)

  -- So many operations complete, and none is started.
  join_running :
      (n : ℕ) (w : PoolThread) → Waited w → w.stage ≡ in_run → w.context.outstanding ≡ n → Passes w
  join_running zero w h s o =
      tick (returns s (run_returns w h o) refl) (join_returned (record w { stage = returned }) refl)
  join_running (suc n) w h s o =
      let step = completes n 0 s o refl in
      tick step (join_running n _ (Tick-Waited step h) s (omega arith))

  join_next : (w : PoolThread) → Waited w → Passes w
  join_next w h = elim (ThreadStage-cases w.stage h.joinable) [
    | inl s ↦ join_running w.context.outstanding w h s refl
    | inr s ↦ join_returned w s
  ]

join_rest :
    (left done : List PoolThread)
    → All Waited left
    → (end : List PoolThread) × Run (joining done left) (joining end [])
join_rest [] done h = (done, here)
join_rest (w ∷ left) done (h, hs) =
    let (v, r) = join_next done left w h in
    let (end, q) = join_rest left (done ++ v ∷ []) hs in (end, lead r q)

can_return :
    (pool : AsioIoServicePool) (t : Progress)
    → Inv pool t
    → (end : List PoolThread) × Run t (joining end [])
can_return pool (joining done left) h = join_rest left done h.1
can_return pool threw h = absurd h

Inv-Accounted : (pool : AsioIoServicePool) (t : Progress) → Inv pool t → Accounted pool t
Inv-Accounted pool (joining done left) h = h.0
Inv-Accounted pool threw h = h

-- `Stop` of version 3 on a pool that still has all its work and threads and no stopped context, with
-- the contexts going on meanwhile: operations complete and are started, and threads return from
-- `run()`. However far this has come, no join has thrown, and on the context of each thread that was
-- joined at least as many operations have completed since the call as were outstanding then. And
-- `Stop` can still return: there is a way on in which every thread is joined.
pub stop-waits :
    (pool : AsioIoServicePool) {t : Progress}
    → IsRunning pool
    → Run (reset_work pool) t
    → Accounted pool t × ((end : List PoolThread) × Run t (joining end []))
stop-waits pool {t} run r =
    let inv = Run-Inv pool r (reset_work-Inv pool run) in
    (Inv-Accounted pool t inv, can_return pool t inv)
