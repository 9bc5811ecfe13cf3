-- ===== src/MultiThread/Session/Writes.antt =====
-- CSession::Send and HandleWrite of the multi-threaded server beside those of version 3.
use async_echo_server.Base.{ℕ, ◌<◌, ◌^◌, ◌≡◌, refl, ap, sym, Bool, true, false, List, [], ◌∷◌}
use async_echo_server.Platform.{Platform, short_of_size_lem}
use async_echo_server.MsgNode as V3Node
use async_echo_server.MsgNode.{SendNode}
use async_echo_server.Session as V3
use async_echo_server.Session.{Session, Action}
use async_echo_server.Session.Send as V3Send
use async_echo_server.MultiThread.Session.{
  new_send_node, write_front, send_chars, send_string, handle_write, close,
}

handle_write-V3 : (s : Session) (error : Bool) → handle_write s error ≡ V3Send.handle_write s error
unfolding handle_write close V3Send.handle_write V3Send.pop V3.close write_front V3Send.write_front
handle_write-V3 s true = refl
handle_write-V3 s false = by_queue s.send_que
  where
    by_queue :
        (que : List SendNode)
        → handle_write (record s { send_que = que }) false
          ≡ V3Send.handle_write (record s { send_que = que }) false
    by_queue [] = refl
    by_queue (n ∷ []) = refl
    by_queue (n ∷ m ∷ que) = refl

send_string-V3 :
    (p : Platform) (s : Session) (msg : List ℕ) (msgid : ℕ)
    → send_string p s msg msgid ≡ V3Send.send_string p s msg msgid
unfolding send_string V3Send.send_string V3Send.enqueue new_send_node V3Node.new_send_node
    write_front V3Send.write_front
send_string-V3 p s msg msgid = refl

send_chars-V3 :
    (p : Platform) (s : Session) (buffer : List ℕ) (max_len msgid : ℕ)
    → max_len < 2 ^ 16
    → send_chars p s buffer max_len msgid ≡ V3Send.send_chars p s buffer max_len msgid
unfolding send_chars V3Send.send_chars V3Send.enqueue new_send_node V3Node.new_send_node write_front
    V3Send.write_front
send_chars-V3 p s buffer max_len msgid h =
    ap (λ n. V3Send.enqueue p s buffer n msgid) (sym (short_of_size_lem max_len h))

-- The writing side of the multi-threaded session is that of version 3: both overloads of Send, the
-- second with a length that is a `short`, and HandleWrite with or without an error have the same
-- result on every session.
pub writes-V3 :
    (p : Platform) (s : Session) (text : List ℕ) (max_len msgid : ℕ) (error : Bool)
    → max_len < 2 ^ 16
    → (send_string p s text msgid ≡ V3Send.send_string p s text msgid)
      × (send_chars p s text max_len msgid ≡ V3Send.send_chars p s text max_len msgid)
      × (handle_write s error ≡ V3Send.handle_write s error)
writes-V3 p s text max_len msgid error h =
    (send_string-V3 p s text msgid, send_chars-V3 p s text max_len msgid h, handle_write-V3 s error)
