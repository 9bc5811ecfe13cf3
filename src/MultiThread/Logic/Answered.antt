-- ===== src/MultiThread/Logic/Answered.antt =====
-- The threads of the multi-threaded logic system: posts, turns of DealMsg and the stop, in any order.
use async_echo_server.Base.{◌≡◌, ap, sym, ◌∙◌, true, List, [], ◌∷◌, ◌++◌}
use async_echo_server.Logic.{LogicNode, LogicSystem, Reply, post_msg_to_queue}
use async_echo_server.Logic as V3
use async_echo_server.Logic.Jsoncpp.{Json}
use async_echo_server.Logic.Deal.{goes_on, ends}
use async_echo_server.Logic.Desk as V3Desk
use async_echo_server.Logic.Desk.{Desk}
use async_echo_server.MultiThread.Wakeup.{push_msg}
use async_echo_server.MultiThread.Logic.{new_logic_system, register_call_backs, deal_msg, answers}
use async_echo_server.MultiThread.Logic.Lowered.{lowered, deal_msg-V3, answers-V3}

abbrev pub opening : Desk
opening = record { system = new_logic_system; posted = []; replies = [] }

-- PostMsgToQue on the system.
abbrev pub push : LogicSystem → LogicNode → LogicSystem
push l node = record l { msg_queue = (push_msg l.msg_queue node).0 }

module _ (j : Json) where
  pub data Step (d e : Desk) : Type 0 where
    posts :
        (node : LogicNode)
        → e ≡ record d { system = push d.system node; posted = d.posted ++ node ∷ [] }
        → Step d e
    turns :
        (l : LogicSystem) (replies : List Reply)
        → deal_msg j d.system ≡ goes_on l replies
        → e ≡ record d { system = l; replies = d.replies ++ replies }
        → Step d e
    stops : e ≡ record d { system = record d.system { b_stop = true } } → Step d e
    finishes :
        (l : LogicSystem) (replies : List Reply)
        → deal_msg j d.system ≡ ends l replies
        → e ≡ record d { system = l; replies = d.replies ++ replies }
        → Step d e

  pub data Reach : Desk → Type 0 where
    here : Reach opening
    next : {d e : Desk} → Reach d → Step d e → Reach e

module _ (j : Json) where
  -- The same step of version 3.
  Step-V3 : {d e : Desk} → Step j d e → V3Desk.Step (lowered j) d e
  unfolding push_msg post_msg_to_queue
  Step-V3 {d} (posts node same) = V3Desk.posts node same
  Step-V3 {d} (turns l replies t same) =
      V3Desk.turns l replies (sym (deal_msg-V3 j d.system) ∙ t) same
  Step-V3 {d} (stops same) = V3Desk.stops same
  Step-V3 {d} (finishes l replies t same) =
      V3Desk.finishes l replies (sym (deal_msg-V3 j d.system) ∙ t) same

  Reach-V3 : {d : Desk} → Reach j d → V3Desk.Reach (lowered j) d
  unfolding new_logic_system register_call_backs V3.new_logic_system V3.register_call_backs
  Reach-V3 here = V3Desk.here
  Reach-V3 (next r st) = V3Desk.next (Reach-V3 r) (Step-V3 st)

  -- The multi-threaded logic system answers in order: after any history of posts, turns of DealMsg and
  -- a stop in which no callback throws, the replies that were sent, followed by those that the queued
  -- messages are still due, are the answers to all posted messages in the order of the posts.
  pub replies_in_order :
      {d : Desk} → Reach j d → d.replies ++ answers j d.system.msg_queue ≡ answers j d.posted
  replies_in_order {d} r =
      ap (◌++◌ d.replies) (answers-V3 j d.system.msg_queue)
      ∙ V3Desk.answered_in_order (lowered j) (Reach-V3 r)
      ∙ sym (answers-V3 j d.posted)
