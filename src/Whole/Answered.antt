-- ===== src/Whole/Answered.antt =====
-- A round of a client whose request jsoncpp reads.
use async_echo_server.Base.{
  false, append-nil, Exec, if◌then◌else◌, ltb, ℕ, ◌+◌, ◌≤◌, ◌<◌, ◌^◌, ◌≡◌, refl, ap, sym, ◌∙◌,
  subst, some, List, [], ◌∷◌, ◌++◌, ok, arith, All, length, flatten,
}
use async_echo_server.Platform.{Platform, short_of_size}
use async_echo_server.MsgNode.{SendNode, text, wire_bytes, max_send_queue}
use async_echo_server.Wire.{Message}
use async_echo_server.Wire.Frames.{frame, IsAcceptable}
use async_echo_server.Session.{Session, Action, async_write}
use async_echo_server.Session.Receive.State.{AtHeader}
use async_echo_server.Session.Receive.Settles.{Kept}
use async_echo_server.Session.Receive.Stream.{IsChunk}
use async_echo_server.Session.Receive.RoundTrip.{receive-frames}
use async_echo_server.Session.Send.{send_string, handle_write}
use async_echo_server.Session.Send.Reply.{with_frame, send_string_lem}
use async_echo_server.Logic.{
  CallBack, LogicSystem, LogicNode, Reply, greeting, hello_world, new_logic_system,
  post_msg_to_queue, call_back, hello_world_call_back, find, register_call_backs,
}
use async_echo_server.Logic.Jsoncpp.{Json, id_member, data_member}
use async_echo_server.Logic.Deal.{goes_on, deal_msg, serve}
use async_echo_server.Logic.Answer.{hello_world_call_back-reply}
use async_echo_server.Client.{max_length, hello_id}
use async_echo_server.Client.Talk.{request_of}
use async_echo_server.Whole.{Round}
use async_echo_server.Whole.Keeps.{receive-Kept, posted-one}

-- A session between two rounds: it waits for a header and has nothing to write.
pub record Ready (s : Session) : Type 0 where
  pub header : AtHeader s []
  pub empty : s.send_que ≡ []

same_session :
    (s : Session) (que : List SendNode) → s.send_que ≡ que → record s { send_que = que } ≡ s
same_session s que e = ap (λ q. record s { send_que = q }) (sym e)

-- The session is idle, so that a reply is written at once and its completion leaves it idle.
send-idle :
    (p : Platform) (s : Session) (msg : List ℕ) (id : ℕ)
    → s.send_que ≡ []
    → length msg + 4 < 0x8000
    → id < 2 ^ 16
    → (busy : Session) × (send_string p s msg id
        ≡ ok (busy, async_write (frame (record { id = id; text = msg })) ∷ []))
      × (handle_write busy false ≡ ok (s, []))
unfolding handle_write
send-idle p s msg id empty small id_fits =
    let (node, bytes, done) = send_string_lem p s msg id small id_fits in
    (
      with_frame s node,
      done
          ∙ ap (λ que. by_size node (length que)) empty
          ∙ ap (λ b. ok (with_frame s node, async_write b ∷ [])) bytes,
      ap (λ que. handle_write (record s { send_que = que ++ node ∷ [] }) false) empty
          ∙ ap (λ t. ok (t, [])) (same_session s [] empty),
    )
  where
    by_size : SendNode → ℕ → Exec (Session × List Action)
    by_size node n =
        if ltb max_send_queue n
        then ok (s, [])
        else if ltb 0 n
        then ok (with_frame s node, [])
        else ok (with_frame s node, async_write (wire_bytes node) ∷ [])

module _ (j : Json) where
  serve-found :
      (l : LogicSystem) (node : LogicNode) (queue : List LogicNode) (f : CallBack) (reply : Reply)
      → find node.recvnode.msg_id l.function_call_back ≡ some f
      → call_back j f node ≡ some reply
      → serve j l (node ∷ queue) ≡ goes_on (record l { msg_queue = queue }) (reply ∷ [])
  unfolding serve
  serve-found l node queue f reply found called = rw (found, serve, called)

  -- The turn of the worker on a message for the one registered callback.
  dealt-one :
      (node : LogicNode) (reply : Reply)
      → node.recvnode.msg_id ≡ hello_id
      → call_back j hello_world node ≡ some reply
      → deal_msg j (post_msg_to_queue new_logic_system node).0
        ≡ goes_on new_logic_system (reply ∷ [])
  unfolding deal_msg post_msg_to_queue new_logic_system register_call_backs find
  dealt-one node reply id called =
      serve-found (post_msg_to_queue new_logic_system node).0 node [] hello_world reply
        (ap (λ k. find k (register_call_backs [])) id) called

  module _ (request : List ℕ) where
    open j use {Value, parse, member, as_int, as_string, assign, to_styled_string}

    -- What jsoncpp finds in the request: a number as its id and a string as its data.
    pub record Understood : Type 0 where
      pub id_value : Value
      pub data_value : Value
      pub number : ℕ
      pub string : List ℕ
      pub has_id : member id_member (parse request) ≡ some (parse request, id_value)
      pub is_number : as_int id_value ≡ some number
      pub has_data : member data_member (parse request) ≡ some (parse request, data_value)
      pub is_string : as_string data_value ≡ some string

    -- The request with the greeting before its data, under its own id.
    abbrev pub answer : Understood → Message
    answer u = record {
      id = short_of_size u.number;
      text = to_styled_string (assign data_member (greeting ++ u.string) (parse request));
    }

    called-answer :
        (u : Understood) (node : LogicNode)
        → text node.recvnode.node ≡ request
        → call_back j hello_world node
          ≡ some (record { session = node.session; text = (answer u).text; id = (answer u).id })
    unfolding call_back
    called-answer u node e =
        ap (hello_world_call_back j node.session) e
        ∙ hello_world_call_back-reply j node.session request u.id_value u.data_value u.number
            u.string u.has_id u.is_number u.has_data u.is_string

    module _ (p : Platform) (fits : length request + 4 ≤ max_length) (u : Understood)
        (small : IsAcceptable (answer u)) where
      -- A session between two rounds that gets the frame of the request, cut in any way, goes through
      -- a whole round, writes the frame of the answer, and is between two rounds again.
      pub round-answers :
          (s : Session) (chunks : List (List ℕ))
          → Ready s
          → All IsChunk chunks
          → flatten chunks ≡ frame (request_of request)
          → (s' : Session) × Round p j s chunks (frame (answer u)) s' × Ready s'
      unfolding post_msg_to_queue new_logic_system flatten
      round-answers s chunks r ok_chunks same =
          let (s', acts, got, ms, header) =
            receive-frames p s (request_of request ∷ []) chunks r.header
              (record { small_id = omega arith; small_text = omega arith }, tt) ok_chunks
              (same ∙ sym (append-nil (frame (request_of request)))) in
          let kept = subst (Kept s) got (receive-Kept p chunks s ok_chunks) in
          let (node, handed, is) = posted-one acts (request_of request) ms in
          let (busy, sent, completed) =
            send-idle p s' (answer u).text (answer u).id (kept.1 ∙ r.empty)
              (omega (arith, small.small_text)) (omega (arith, small.small_id)) in
          (
            s',
            record {
              acts = acts;
              node = node;
              reply = record { session = s.uuid; text = (answer u).text; id = (answer u).id };
              busy = busy;
              received = got;
              handed = handed;
              notified = refl;
              dealt =
                  dealt-one (record { session = s.uuid; recvnode = node }) _ (ap (λ k. k.id) is)
                    (called-answer u _ (ap (λ k. k.text) is));
              addressed = refl;
              sent = sent;
              completed = completed;
            },
            record { header = header; empty = kept.1 ∙ r.empty },
          )
