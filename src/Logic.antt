-- ===== src/Logic.antt =====
-- Server-version-3/LogicSystem.h and LogicSystem.cpp: the queue between the Asio thread, which posts
-- messages, and the worker thread, which hands each to its callback.
pub mod Jsoncpp
pub mod Deal
pub mod Answer
pub mod Serve
pub mod Desk
pub mod Wakeup
pub mod Examples
mod Tests
use async_echo_server.Base.{
  ℕ, Bool, true, false, Option, none, some, List, [], ◌∷◌, ◌++◌, ◌==◌, if◌then◌else◌,
}
use async_echo_server.Platform.{short_of_size}
use async_echo_server.MsgNode.{ReciveNode, text, msg_hello_word}
use async_echo_server.Base.{length}
use async_echo_server.Logic.Jsoncpp.{Json, Key, id_member, data_member}

-- `shared_ptr<CSession>` is the uuid of the session that the reply goes to.
pub record LogicNode : Type 0 where
  pub session : List ℕ
  pub recvnode : ReciveNode

-- The functions that `RegisterCallBacks` binds.
pub data CallBack : Type 0 where
  hello_world : CallBack

-- The mutex, the condition variable and the thread are in `Logic.Wakeup`.
pub record LogicSystem : Type 0 where
  pub msg_queue : List LogicNode
  pub b_stop : Bool
  pub function_call_back : List (ℕ × CallBack)

-- A call of `session->Send(text, id)`.
pub record Reply : Type 0 where
  pub session : List ℕ
  pub text : List ℕ
  pub id : ℕ

-- `_function_call_back[id] = f`
unfoldable pub register : ℕ → CallBack → List (ℕ × CallBack) → List (ℕ × CallBack)
register id f [] = (id, f) ∷ []
register id f ((k, g) ∷ m) = if k == id then (k, f) ∷ m else (k, g) ∷ register id f m

-- `_function_call_back.find(id)`
unfoldable pub find : ℕ → List (ℕ × CallBack) → Option CallBack
find id [] = none
find id ((k, g) ∷ m) = if k == id then some g else find id m

-- RegisterCallBacks
unfoldable pub register_call_backs : List (ℕ × CallBack) → List (ℕ × CallBack)
unfolding register
register_call_backs m = register msg_hello_word hello_world m

-- LogicSystem()
unfoldable pub new_logic_system : LogicSystem
unfolding register_call_backs
new_logic_system = record {
  msg_queue = [];
  b_stop = false;
  function_call_back = register_call_backs [];
}

-- PostMsgtoQueue(msg): the Boolean is whether the worker is notified.
unfoldable pub post_msg_to_queue : LogicSystem → LogicNode → LogicSystem × Bool
post_msg_to_queue l msg =
    let queue = l.msg_queue ++ msg ∷ [] in (record l { msg_queue = queue }, length queue == 1)

-- "Server has received msg, msg data is "
abbrev pub greeting : List ℕ
greeting =
    83 ∷ 101 ∷ 114 ∷ 118 ∷ 101 ∷ 114 ∷ 32 ∷ 104 ∷ 97 ∷ 115 ∷ 32 ∷ 114 ∷ 101 ∷ 99 ∷ 101 ∷ 105 ∷ 118
    ∷ 101 ∷ 100 ∷ 32 ∷ 109 ∷ 115 ∷ 103 ∷ 44 ∷ 32 ∷ 109 ∷ 115 ∷ 103 ∷ 32 ∷ 100 ∷ 97 ∷ 116 ∷ 97 ∷ 32
    ∷ 105 ∷ 115 ∷ 32 ∷ []

module _ (j : Json) where
  open j use {Value, parse, member, as_int, as_string, assign, to_styled_string}

  infixl 5 ◌>>=◌
  abbrev ◌>>=◌ : {A B : Type 0} → Option A → (A → Option B) → Option B
  none >>= f = none
  some a >>= f = f a

  -- `root[k].asInt()`
  unfoldable pub int_member : Key → Value → Option (Value × ℕ)
  int_member k root = do (root', v) ← member k root; n ← as_int v; some (root', n)

  -- `root[k].asString()`
  unfoldable pub string_member : Key → Value → Option (Value × List ℕ)
  string_member k root = do (root', v) ← member k root; s ← as_string v; some (root', s)

  -- HelloWorldCallBack(session, msg_id, msg_data); `none` is an exception of jsoncpp. The `int` of
  -- the id becomes a `short` in the call of `Send`.
  unfoldable pub hello_world_call_back : List ℕ → List ℕ → Option Reply
  unfolding int_member string_member
  hello_world_call_back session msg_data = do
    (root₁, printed) ← int_member id_member (parse msg_data)
    (root₂, shown) ← string_member data_member root₁
    (root₃, received) ← string_member data_member root₂
    let root₄ = assign data_member (greeting ++ received) root₃
    let return_str = to_styled_string root₄
    (root₅, n) ← int_member id_member root₄
    some (record { session = session; text = return_str; id = short_of_size n })

  unfoldable pub call_back : CallBack → LogicNode → Option Reply
  unfolding hello_world_call_back
  call_back hello_world node = hello_world_call_back node.session (text node.recvnode.node)
