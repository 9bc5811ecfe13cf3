-- ===== src/MultiThread/Tests.antt =====
-- A session that is lost, and a worker that is about to be notified.
use async_echo_server.Base.{◌⊎◌, ◌<◌, ◌≡◌, refl, [], ◌∷◌}
use async_echo_server.Logic.{LogicNode}
use async_echo_server.Logic.Wakeup.{asleep}
use async_echo_server.MultiThread.Wakeup
use async_echo_server.MultiThread.Accept.{
  Acceptor, Run, Leaked, accepted, not_started, session_can_leak,
}
use async_echo_server.Server.{find_session}

session_can_leak_example :
    (a : Acceptor) × Run
      (7 ∷ [])
      (record { sessions = []; stage = accepted; reader = not_started })
      a
    × Leaked (7 ∷ []) a
unfolding find_session
session_can_leak_example = session_can_leak (7 ∷ []) [] refl

abbrev some_msg : LogicNode
some_msg = record {
  session = 7 ∷ [];
  recvnode = record { node = record { cur_len = 0; total_len = 0; chars = 0 ∷ [] }; msg_id = 1001 };
}

-- The worker waits, and a poster has pushed a message and is about to notify.
abbrev to_be_noticed : Wakeup.Threads
to_be_noticed = record Wakeup.opening { worker = asleep; msg_que = some_msg ∷ []; notices = 1 }

to_be_noticed-Reach : Wakeup.Reach to_be_noticed
unfolding Wakeup.push_msg
to_be_noticed-Reach =
    Wakeup.next
      (Wakeup.next (Wakeup.next Wakeup.here (Wakeup.look refl refl refl refl))
        (Wakeup.block refl refl))
      (Wakeup.push some_msg (λ e. cc) refl)

waiting_is_noticed_example : (to_be_noticed.msg_que ≡ []) ⊎ (0 < to_be_noticed.notices)
waiting_is_noticed_example = Wakeup.waiting_is_noticed to_be_noticed-Reach refl
