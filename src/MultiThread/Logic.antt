-- ===== src/MultiThread/Logic.antt =====
-- Server-version-3-multi-thread/LogicSystem.h and LogicSystem.cpp: the callback and DealMsg. The
-- members are those of version 3, so the state is a `LogicSystem`; PostMsgToQue is in
-- `MultiThread.Wakeup`.
pub mod Lowered
pub mod Answered
mod Tests
use async_echo_server.Base.{
  ℕ, true, false, Option, none, some, List, [], ◌∷◌, ◌++◌, if◌then◌else◌, ◌==◌,
}
use async_echo_server.Platform.{short_of_size}
use async_echo_server.MsgNode.{text, msg_hello_word}
use async_echo_server.Logic.{
  LogicNode, CallBack, hello_world, LogicSystem, Reply, register, find, int_member, string_member,
}
use async_echo_server.Logic.Jsoncpp.{Json, Key, id_member, data_member}
use async_echo_server.Logic.Deal.{Turn, waits, goes_on, ends, throws, with_reply}

-- RegisterCallBacks
unfoldable pub register_call_backs : List (ℕ × CallBack) → List (ℕ × CallBack)
unfolding register
register_call_backs m = register msg_hello_word hello_world m

-- LogicSystem()
unfoldable pub new_logic_system : LogicSystem
unfolding register_call_backs
new_logic_system = record {
  msg_queue = [];
  b_stop = false;
  function_call_back = register_call_backs [];
}

-- "server has received msg, msg data is "
abbrev pub greeting : List ℕ
greeting =
    115 ∷ 101 ∷ 114 ∷ 118 ∷ 101 ∷ 114 ∷ 32 ∷ 104 ∷ 97 ∷ 115 ∷ 32 ∷ 114 ∷ 101 ∷ 99 ∷ 101 ∷ 105 ∷ 118
    ∷ 101 ∷ 100 ∷ 32 ∷ 109 ∷ 115 ∷ 103 ∷ 44 ∷ 32 ∷ 109 ∷ 115 ∷ 103 ∷ 32 ∷ 100 ∷ 97 ∷ 116 ∷ 97 ∷ 32
    ∷ 105 ∷ 115 ∷ 32 ∷ []

module _ (j : Json) where
  open j use {parse, assign, to_styled_string}

  infixl 5 ◌>>=◌
  abbrev ◌>>=◌ : {A B : Type 0} → Option A → (A → Option B) → Option B
  none >>= f = none
  some a >>= f = f a

  -- HelloWordCallBack(session, msg_id, msg_data); `none` is an exception of jsoncpp.
  unfoldable pub hello_word_call_back : List ℕ → List ℕ → Option Reply
  unfolding int_member string_member
  hello_word_call_back session msg_data = do
    (root₁, printed) ← int_member j id_member (parse msg_data)
    (root₂, shown) ← string_member j data_member root₁
    (root₃, received) ← string_member j data_member root₂
    let root₄ = assign data_member (greeting ++ received) root₃
    let return_str = to_styled_string root₄
    (root₅, n) ← int_member j id_member root₄
    some (record { session = session; text = return_str; id = short_of_size n })

  unfoldable pub call_back : CallBack → LogicNode → Option Reply
  unfolding hello_word_call_back
  call_back hello_world node = hello_word_call_back node.session (text node.recvnode.node)

  -- The inner loop, which empties the queue once `_b_stop` is set.
  unfoldable pub drain : LogicSystem → List LogicNode → Turn
  drain l [] = ends (record l { msg_queue = [] }) []
  drain l (node ∷ queue) = elim (find node.recvnode.msg_id l.function_call_back) [
    | none ↦ drain l queue
    | some f ↦ elim (call_back f node) [
      | none ↦ throws []
      | some reply ↦ with_reply reply (drain l queue)
    ]
  ]

  -- The message at the front, while the system runs.
  unfoldable pub serve : LogicSystem → List LogicNode → Turn
  serve l [] = waits
  serve l (node ∷ queue) = elim (find node.recvnode.msg_id l.function_call_back) [
    | none ↦ goes_on (record l { msg_queue = queue }) []
    | some f ↦ elim (call_back f node) [
      | none ↦ throws []
      | some reply ↦ goes_on (record l { msg_queue = queue }) (reply ∷ [])
    ]
  ]

  -- One turn of DealMsg: with an empty queue and no stop the worker waits; after a stop it empties
  -- the queue.
  unfoldable pub deal_msg : LogicSystem → Turn
  unfolding drain serve
  deal_msg l = if l.b_stop then drain l l.msg_queue else serve l l.msg_queue

  -- The answers that messages are due: one for each message with the id of the callback.
  unfoldable pub answers : List LogicNode → List Reply
  answers [] = []
  answers (node ∷ queue) =
      if msg_hello_word == node.recvnode.msg_id
      then elim (call_back hello_world node) [
        | none ↦ answers queue
        | some reply ↦ reply ∷ answers queue
      ]
      else answers queue
