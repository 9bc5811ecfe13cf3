-- ===== src/MultiThread/Wakeup.antt =====
-- Server-version-3-multi-thread/LogicSystem.cpp: PostMsgToQue gives the mutex back before it notifies
-- the worker of DealMsg, so other threads run in between.
use async_echo_server.Base.{
  ℕ, suc, ◌<◌, ◌≡◌, ◌≢◌, refl, ◌⊎◌, inl, inr, Bool, true, false, List, [], ◌∷◌, ◌++◌, length, ◌==◌,
  arith, if◌then◌else◌,
}
use async_echo_server.Logic.{LogicNode}
use async_echo_server.Logic.Wakeup.{
  Worker, ready, deciding, asleep, gone, wake, wake≢asleep, wake-deciding,
}

-- `notices` is how many posters have given the mutex back and are about to notify.
pub record Threads : Type 0 where
  pub msg_que : List LogicNode
  pub b_stop : Bool
  pub worker : Worker
  pub notices : ℕ

-- The part of PostMsgToQue under the mutex: the queue, and whether the poster will notify.
unfoldable pub push_msg : List LogicNode → LogicNode → List LogicNode × Bool
push_msg que msg = let que' = que ++ msg ∷ [] in (que', length que' == 1)

abbrev pub pushed : Threads → LogicNode → Threads
pushed t msg =
    let (que, notifies) = push_msg t.msg_que msg in
    record t { msg_que = que; notices = if notifies then suc t.notices else t.notices }

abbrev pub opening : Threads
opening = record { msg_que = []; b_stop = false; worker = ready; notices = 0 }

-- The posters, the worker, and the destructor's stop. A worker that is about to wait holds the mutex.
pub data Step (t u : Threads) : Type 0 where
  push : (msg : LogicNode) → t.worker ≢ deciding → u ≡ pushed t msg → Step t u
  notify :
      (n : ℕ) → t.notices ≡ suc n → u ≡ record t { notices = n; worker = wake t.worker } → Step t u
  look :
      t.worker ≡ ready
      → t.msg_que ≡ []
      → t.b_stop ≡ false
      → u ≡ record t { worker = deciding }
      → Step t u
  block : t.worker ≡ deciding → u ≡ record t { worker = asleep } → Step t u
  spurious : t.worker ≡ asleep → u ≡ record t { worker = ready } → Step t u
  handle :
      (msg : LogicNode) (que : List LogicNode)
      → t.worker ≡ ready
      → t.b_stop ≡ false
      → t.msg_que ≡ msg ∷ que
      → u ≡ record t { msg_que = que }
      → Step t u
  finish :
      t.worker ≡ ready → t.b_stop ≡ true → u ≡ record t { msg_que = []; worker = gone } → Step t u
  stop : u ≡ record t { b_stop = true } → Step t u
  notify_stop : t.b_stop ≡ true → u ≡ record t { worker = wake t.worker } → Step t u

pub data Reach : Threads → Type 0 where
  here : Reach opening
  next : {t u : Threads} → Reach t → Step t u → Reach u

abbrev pub IsServed : Threads → Type 0
IsServed t = (t.msg_que ≡ []) ⊎ (0 < t.notices)

-- A worker that waits is served, and one that is about to has an empty queue.
abbrev Idle : Threads → Type 0
Idle t = (t.worker ≡ asleep → IsServed t) × (t.worker ≡ deciding → t.msg_que ≡ [])

push-IsServed : (t : Threads) (msg : LogicNode) → IsServed t → IsServed (pushed t msg)
unfolding push_msg
push-IsServed t msg (inl empty) = inr (rw empty (omega arith))
push-IsServed t msg (inr some) = inr (ground (arith, some))

Step-Idle : {t u : Threads} → Step t u → Idle t → Idle u
Step-Idle {t} (push msg free same) v =
    rw same (λ e. push-IsServed t msg (v.0 e), λ e. absurd (free e))
Step-Idle {t} (notify n some same) v =
    rw same (λ e. absurd (wake≢asleep t.worker e), λ e. v.1 (wake-deciding t.worker e))
Step-Idle {t} (look w q s same) v = rw same (λ e. cc, λ e. q)
Step-Idle {t} (block w same) v = rw same (λ e. inl (v.1 w), λ e. cc)
Step-Idle {t} (spurious w same) v = rw same (λ e. cc, λ e. cc)
Step-Idle {t} (handle msg que w s q same) v =
    rw same (λ e. absurd (awake w e), λ e. absurd (alert w e))
  where
    awake : t.worker ≡ ready → t.worker ≢ asleep
    awake r e = cc

    alert : t.worker ≡ ready → t.worker ≢ deciding
    alert r e = cc
Step-Idle {t} (finish w s same) v = rw same (λ e. cc, λ e. cc)
Step-Idle {t} (stop same) v = rw same v
Step-Idle {t} (notify_stop s same) v =
    rw same (λ e. absurd (wake≢asleep t.worker e), λ e. v.1 (wake-deciding t.worker e))

Reach-Idle : {t : Threads} → Reach t → Idle t
Reach-Idle here = (λ e. inl refl, λ e. refl)
Reach-Idle (next r st) = Step-Idle st (Reach-Idle r)

-- After any history of the posters, the worker and the destructor, a worker that waits has an empty
-- queue, or a poster that has given the mutex back is about to notify it.
pub waiting_is_noticed :
    {t : Threads} → Reach t → t.worker ≡ asleep → (t.msg_que ≡ []) ⊎ (0 < t.notices)
waiting_is_noticed r w = (Reach-Idle r).0 w
