-- ===== src/Whole.antt =====
-- A client of json-Client and a server of Server-version-3 together: the session, the logic system
-- and the client, each in its own module, joined the way their calls join them.
pub mod Keeps
pub mod Answered
pub mod RoundTrip
mod Tests
use async_echo_server.Base.{ℕ, ◌≡◌, true, false, List, [], ◌∷◌, ◌++◌, ok}
use async_echo_server.Platform.{Platform}
use async_echo_server.MsgNode.{ReciveNode}
use async_echo_server.Session.{
  Session, Action, async_read, async_write, post_msg, close_socket, clear_session,
}
use async_echo_server.Session.Receive.{returned}
use async_echo_server.Session.Receive.Stream.{receive}
use async_echo_server.Session.Send.{send_string, handle_write}
use async_echo_server.Logic.{LogicNode, Reply, new_logic_system, post_msg_to_queue}
use async_echo_server.Logic.Jsoncpp.{Json}
use async_echo_server.Logic.Deal.{goes_on, deal_msg}

-- What a handler gives to `PostMsgtoQueue`.
unfoldable pub nodes : List Action → List ReciveNode
nodes [] = []
nodes (post_msg r ∷ acts) = r ∷ nodes acts
nodes (async_read ∷ acts) = nodes acts
nodes (async_write bytes ∷ acts) = nodes acts
nodes (close_socket ∷ acts) = nodes acts
nodes (clear_session ∷ acts) = nodes acts

module _ (p : Platform) (j : Json) where
  -- A round of a synchronous client: the chunks of its request come in and are posted as one node; the
  -- worker is notified and takes its turn; the reply goes to the session that the node came from,
  -- whose `Send` starts a write; the write is completed. The bytes are what was written.
  pub record Round (s : Session) (chunks : List (List ℕ)) (bytes : List ℕ) (s' : Session)
      : Type 1 where
    pub acts : List Action
    pub node : ReciveNode
    pub reply : Reply
    pub busy : Session
    pub received : receive p s chunks ≡ returned s' acts
    pub handed : nodes acts ≡ node ∷ []
    pub notified :
        (post_msg_to_queue new_logic_system (record { session = s.uuid; recvnode = node })).1 ≡ true
    pub dealt :
        deal_msg j
          (post_msg_to_queue new_logic_system (record { session = s.uuid; recvnode = node })).0
        ≡ goes_on new_logic_system (reply ∷ [])
    pub addressed : reply.session ≡ s.uuid
    pub sent : send_string p s' reply.text reply.id ≡ ok (busy, async_write bytes ∷ [])
    pub completed : handle_write busy false ≡ ok (s', [])

  -- Rounds one after the other; the bytes are all that was written.
  pub data Rounds : Session → List (List (List ℕ)) → List ℕ → Session → Type 1 where
    idle : {s : Session} → Rounds s [] [] s
    round :
        {chunks : List (List ℕ)} {more : List (List (List ℕ))} {bytes written : List ℕ}
        {s t u : Session}
        → Round s chunks bytes t
        → Rounds t more written u
        → Rounds s (chunks ∷ more) (bytes ++ written) u
