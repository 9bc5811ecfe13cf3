-- ===== src/Logic/Wakeup.antt =====
-- The condition variable `_consume`: when the worker of `DealMsg` sleeps, and who wakes it. Posts
-- and turns hold `_mutex` and are single steps; the destructor sets `_b_stop` without it.
use async_echo_server.Base.{
  refl, ap, ◌≡◌, ◌≢◌, sym, ◌∙◌, inl, inr, true, false, List, [], if◌then◌else◌, Bool-cases,
  false≢true, ◌⊎◌,
}
use async_echo_server.Logic.Jsoncpp.{Json}
use async_echo_server.Logic.{LogicNode, LogicSystem, Reply, new_logic_system, post_msg_to_queue}
use async_echo_server.Logic.Deal.{goes_on, ends, deal_msg}

-- The worker is about to take the mutex; or it holds the mutex, has found the queue empty and no
-- stop, and is about to wait; or it waits; or it has left its loop.
pub data Worker : Type 0 where
  ready deciding asleep gone : Worker

-- How far `~LogicSystem` has come; after the notification it joins the worker.
pub data Ending : Type 0 where
  not_begun stop_set notified : Ending

pub record Threads : Type 0 where
  pub system : LogicSystem
  pub worker : Worker
  pub ending : Ending

-- `_consume.notify_one()` reaches a worker that waits, and no other.
abbrev pub wake : Worker → Worker
wake asleep = ready
wake ready = ready
wake deciding = deciding
wake gone = gone

ready≢asleep : ready ≢ asleep
ready≢asleep e = cc

ready≢deciding : ready ≢ deciding
ready≢deciding e = cc

pub wake≢asleep : (w : Worker) → wake w ≢ asleep
wake≢asleep ready e = ready≢asleep e
wake≢asleep deciding e = cc
wake≢asleep asleep e = ready≢asleep e
wake≢asleep gone e = cc

pub wake-deciding : (w : Worker) → wake w ≡ deciding → w ≡ deciding
wake-deciding ready e = e
wake-deciding deciding e = e
wake-deciding asleep e = absurd (ready≢deciding e)
wake-deciding gone e = e

abbrev pub posted : Threads → LogicNode → Threads
posted t node =
    let (l, notify) = post_msg_to_queue t.system node in
    record t { system = l; worker = if notify then wake t.worker else t.worker }

abbrev pub opening : Threads
opening = record { system = new_logic_system; worker = ready; ending = not_begun }

module _ (j : Json) where
  pub data Step (t u : Threads) : Type 0 where
    post : (node : LogicNode) → t.worker ≢ deciding → u ≡ posted t node → Step t u
    look :
        t.worker ≡ ready
        → t.system.msg_queue ≡ []
        → t.system.b_stop ≡ false
        → u ≡ record t { worker = deciding }
        → Step t u
    block : t.worker ≡ deciding → u ≡ record t { worker = asleep } → Step t u
    spurious : t.worker ≡ asleep → u ≡ record t { worker = ready } → Step t u
    turn :
        (l : LogicSystem) (replies : List Reply)
        → t.worker ≡ ready
        → deal_msg j t.system ≡ goes_on l replies
        → u ≡ record t { system = l }
        → Step t u
    finish :
        (l : LogicSystem) (replies : List Reply)
        → t.worker ≡ ready
        → deal_msg j t.system ≡ ends l replies
        → u ≡ record t { system = l; worker = gone }
        → Step t u
    set_stop :
        t.ending ≡ not_begun
        → u ≡ record t { system = record t.system { b_stop = true }; ending = stop_set }
        → Step t u
    notify_stop :
        t.ending ≡ stop_set → u ≡ record t { worker = wake t.worker; ending = notified } → Step t u

  pub data Run (t : Threads) : Threads → Type 0 where
    here : Run t t
    next : {u v : Threads} → Run t u → Step u v → Run t v

  -- A worker that waits, or is about to, has nothing to do.
  abbrev Idle : Threads → Type 0
  Idle t =
      (t.worker ≡ asleep → t.system.msg_queue ≡ [])
      × (t.worker ≡ deciding → t.system.msg_queue ≡ [])

  -- The first message of an empty queue notifies.
  alone :
      (l : LogicSystem) (node : LogicNode) → l.msg_queue ≡ [] → (post_msg_to_queue l node).1 ≡ true
  unfolding post_msg_to_queue
  alone l node q = rw q

  post-Idle : (t : Threads) (node : LogicNode) → t.worker ≢ deciding → Idle t → Idle (posted t node)
  post-Idle t node free v = elim (Bool-cases (post_msg_to_queue t.system node).1) [
    | inl n ↦
        rw n (λ e. absurd (wake≢asleep t.worker e), λ e. absurd (free (wake-deciding t.worker e)))
    | inr n ↦
        rw n (λ e. absurd (false≢true (sym n ∙ alone t.system node (v.0 e))), λ e. absurd (free e))
  ]

  Step-Idle : {t u : Threads} → Step t u → Idle t → Idle u
  Step-Idle {t} (post node free same) v = rw same (post-Idle t node free v)
  Step-Idle {t} (look w q s same) v = rw same (λ e. cc, λ e. q)
  Step-Idle {t} (block w same) v = rw same (λ e. v.1 w, λ e. cc)
  Step-Idle {t} (spurious w same) v = rw same (λ e. cc, λ e. cc)
  Step-Idle {t} (turn l replies w d same) v =
      rw same (λ e. absurd (ready≢asleep (sym w ∙ e)), λ e. absurd (ready≢deciding (sym w ∙ e)))
  Step-Idle {t} (finish l replies w d same) v = rw same (λ e. cc, λ e. cc)
  Step-Idle {t} (set_stop e same) v = rw same v
  Step-Idle {t} (notify_stop e same) v =
      rw same (λ e. absurd (wake≢asleep t.worker e), λ e. v.1 (wake-deciding t.worker e))

  Run-Idle : {t u : Threads} → Run t u → Idle t → Idle u
  Run-Idle here v = v
  Run-Idle (next r st) v = Step-Idle st (Run-Idle r v)

module _ (j : Json) where
  -- The destructor has notified and joins a worker that waits, and it takes a post or a spurious
  -- wakeup to move that worker.
  pub record Stuck (u : Threads) : Type 0 where
    pub stopping : u.system.b_stop ≡ true
    pub joining : u.ending ≡ notified
    pub waiting : u.worker ≡ asleep
    pub only :
        (v : Threads)
        → Step j u v
        → ((node : LogicNode) × (v ≡ posted u node)) ⊎ (v ≡ record u { worker = ready })

  asleep-only :
      (u v : Threads)
      → u.ending ≡ notified
      → u.worker ≡ asleep
      → Step j u v
      → ((node : LogicNode) × (v ≡ posted u node)) ⊎ (v ≡ record u { worker = ready })
  asleep-only u v e w (post node free same) = inl (node, same)
  asleep-only u v e w (look r q s same) = cc
  asleep-only u v e w (block r same) = cc
  asleep-only u v e w (spurious r same) = inr same
  asleep-only u v e w (turn l replies r d same) = cc
  asleep-only u v e w (finish l replies r d same) = cc
  asleep-only u v e w (set_stop r same) = cc
  asleep-only u v e w (notify_stop r same) = cc

  abbrev stop_lost : Threads → Threads
  stop_lost t = record t {
    system = record t.system { b_stop = true };
    ending = notified;
    worker = asleep;
  }

  -- While at most the destructor can set the stop flag, a worker that waits for `_consume` has an
  -- empty queue: a posted message never waits for another notification.
  pub never_sleeps_on_work :
      {t : Threads} → Run j opening t → t.worker ≡ asleep → t.system.msg_queue ≡ []
  unfolding new_logic_system
  never_sleeps_on_work r w = (Run-Idle j r (λ e. refl, λ e. refl)).0 w

  -- The destructor sets the stop flag without the mutex. So whenever the worker has found nothing to
  -- do and is about to wait, the two threads can go on so that the notification of the destructor is
  -- lost: the worker waits, the destructor joins it, and only a post or a spurious wakeup helps.
  pub stop_can_be_lost :
      (t : Threads)
      → t.worker ≡ deciding
      → t.ending ≡ not_begun
      → (u : Threads) × Run j t u × Stuck u
  stop_can_be_lost t w e = (
    stop_lost t,
    next (next (next here (set_stop e refl)) (notify_stop refl refl)) (block (ap wake w) refl),
    record {
      stopping = refl;
      joining = refl;
      waiting = refl;
      only = λ v. asleep-only (stop_lost t) v refl refl;
    },
  )
