-- ===== src/Logic/Deal.antt =====
-- LogicSystem::DealMsg, one turn of its loop at a time, and what a turn does to the queue.
use async_echo_server.Base.{none, some, List, [], ◌∷◌, if◌then◌else◌}
use async_echo_server.Logic.Jsoncpp.{Json}
use async_echo_server.Logic.{LogicNode, LogicSystem, Reply, find, call_back}

-- How a turn ends: the worker waits on the condition variable and nothing has changed; the loop goes
-- on; the loop is left, for `_b_stop`; or a callback has thrown, which ends the program. The list
-- is what the turn sent.
pub data Turn : Type 0 where
  waits : Turn
  goes_on : LogicSystem → List Reply → Turn
  ends : LogicSystem → List Reply → Turn
  throws : List Reply → Turn

abbrev pub with_reply : Reply → Turn → Turn
with_reply r waits = waits
with_reply r (goes_on l rs) = goes_on l (r ∷ rs)
with_reply r (ends l rs) = ends l (r ∷ rs)
with_reply r (throws rs) = throws (r ∷ rs)

module _ (j : Json) where
  -- The inner loop, which empties the queue once `_b_stop` is set.
  unfoldable pub drain : LogicSystem → List LogicNode → Turn
  drain l [] = ends (record l { msg_queue = [] }) []
  drain l (node ∷ queue) = elim (find node.recvnode.msg_id l.function_call_back) [
    | none ↦ drain l queue
    | some f ↦ elim (call_back j f node) [
      | none ↦ throws []
      | some reply ↦ with_reply reply (drain l queue)
    ]
  ]

  -- The message at the front, while the system runs.
  unfoldable pub serve : LogicSystem → List LogicNode → Turn
  serve l [] = waits
  serve l (node ∷ queue) = elim (find node.recvnode.msg_id l.function_call_back) [
    | none ↦ goes_on (record l { msg_queue = queue }) []
    | some f ↦ elim (call_back j f node) [
      | none ↦ throws []
      | some reply ↦ goes_on (record l { msg_queue = queue }) (reply ∷ [])
    ]
  ]

  -- One turn: with an empty queue and no stop the worker waits; after a stop it empties the queue.
  unfoldable pub deal_msg : LogicSystem → Turn
  unfolding drain serve
  deal_msg l = if l.b_stop then drain l l.msg_queue else serve l l.msg_queue
