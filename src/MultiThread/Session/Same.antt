-- ===== src/MultiThread/Session/Same.antt =====
-- The handlers of the multi-threaded session beside those of version 3.
use async_echo_server.Base.{
  ℕ, zero, suc, ◌≡◌, refl, ap, ◌∙◌, Bool, true, false, Option, none, some, List, [], ok, corrupt,
  ltb, ◌==◌,
}
use async_echo_server.Platform.{Platform, size_of_short, add_size, short_gt}
use async_echo_server.MsgNode.{
  ReciveNode, clear, terminate, copy_in, advance, get_short, head_total_len, head_id_len,
  max_length, MsgNode,
}
use async_echo_server.MsgNode as V3Node
use async_echo_server.Session.{Session, Action, post_msg}
use async_echo_server.Session as V3
use async_echo_server.Session.Receive as V3Read
use async_echo_server.Session.Receive.{Round, returns, continues}
use async_echo_server.MultiThread.Session.{new_recv_node, rearm}
use async_echo_server.MultiThread.Session as Mt
use async_echo_server.MultiThread.Session.Try.{
  Try, done, raised, faulty, uncaught, uncaught-attempt, uncaught-if,
}
use async_echo_server.MultiThread.Session.Read.{
  Outcome, returned, caught, corrupted, unfinished, wait_for_more, finish_message, begin_message,
  read_header, read_body, round, prepend, proceed, read_loop, handle_read,
}

rearm-V3 : (s : Session) → rearm s ≡ V3.rearm s
unfolding rearm V3.rearm
rearm-V3 s = refl

wait_for_more-V3 : (s : Session) → uncaught (wait_for_more s) ≡ V3Read.leave (V3.rearm s)
wait_for_more-V3 s =
    uncaught-attempt s (rearm s) (λ r. done (returns r.0 r.1)) (λ r. ok (returns r.0 r.1))
      (λ r. refl)
    ∙ ap V3Read.leave (rearm-V3 s)

finish_message-V3 :
    (s : Session) (recv : ReciveNode) (copy_len bytes : ℕ)
    → uncaught (finish_message s recv copy_len bytes) ≡ V3Read.finish_message s recv copy_len bytes
unfolding finish_message V3Read.finish_message rearm V3.rearm
finish_message-V3 s recv copy_len bytes = uncaught-attempt _ (clear s.recv_head_node) _ _ (λ head.
    uncaught-if (bytes == 0) _ _ _ _ (uncaught-attempt _ (rearm (opened head)) _ _ (λ r. refl))
      refl)
  where
    opened : MsgNode → Session
    opened head = record s {
      recv_msg_node = some recv;
      b_head_parse = false;
      recv_head_node = head;
    }

begin_message-V3 :
    (s : Session) (msg_id msg_len copy_len bytes : ℕ)
    → uncaught (begin_message s msg_id msg_len copy_len bytes)
      ≡ V3Read.begin_message s msg_id msg_len copy_len bytes
unfolding begin_message V3Read.begin_message new_recv_node V3Node.new_recive_node
begin_message-V3 s msg_id msg_len copy_len bytes =
    uncaught-attempt s (new_recv_node msg_len msg_id) _ _ (λ recv.
      uncaught-if (ltb bytes (size_of_short msg_len)) _ _ _ _
        (uncaught-attempt _ (copy_in recv.node s.buffer copy_len bytes) _ _
          (λ node. wait_for_more-V3 _))
        (uncaught-attempt _ (copy_in recv.node s.buffer copy_len (size_of_short msg_len)) _ _
          (λ node.
            uncaught-attempt _ (terminate (advance node (size_of_short msg_len))) _ _
              (λ ended. finish_message-V3 s _ _ _))))

read_header-V3 :
    (p : Platform) (s : Session) (copy_len bytes : ℕ)
    → uncaught (read_header p s copy_len bytes) ≡ V3Read.read_header p s copy_len bytes
unfolding read_header V3Read.read_header
read_header-V3 p s copy_len bytes =
    uncaught-if (ltb (add_size bytes (size_of_short s.recv_head_node.cur_len)) head_total_len) _ _ _
      _
      (uncaught-attempt s (copy_in s.recv_head_node s.buffer copy_len bytes) _ _
        (λ head. wait_for_more-V3 _))
      (uncaught-attempt s (copy_in s.recv_head_node s.buffer copy_len _) _ _ (λ head.
        uncaught-attempt _ (get_short p head.chars 0) _ _ (λ raw_id.
          uncaught-if (short_gt (p.network_to_host_short raw_id) max_length) _ _ _ _ refl (
            uncaught-attempt _ (get_short p head.chars head_id_len) _ _ (λ raw_len.
              uncaught-if (short_gt (p.network_to_host_short raw_len) max_length) _ _ _ _ refl
                (begin_message-V3 _ _ _ _ _))))))

read_body-V3 :
    (s : Session) (recv : ReciveNode) (copy_len bytes : ℕ)
    → uncaught (read_body s recv copy_len bytes) ≡ V3Read.read_body s recv copy_len bytes
unfolding read_body V3Read.read_body
read_body-V3 s recv copy_len bytes =
    uncaught-if (ltb bytes _) _ _ _ _
      (uncaught-attempt s (copy_in recv.node s.buffer copy_len bytes) _ _
        (λ node. wait_for_more-V3 _))
      (uncaught-attempt s (copy_in recv.node s.buffer copy_len _) _ _ (λ node.
        uncaught-attempt s (terminate (advance node _)) _ _ (λ ended. finish_message-V3 s _ _ _)))

round-V3 :
    (p : Platform) (s : Session) (copy_len bytes : ℕ)
    → uncaught (round p s copy_len bytes) ≡ V3Read.round p s copy_len bytes
unfolding round V3Read.round
round-V3 p s copy_len bytes = by_case s.b_head_parse s.recv_msg_node
  where
    by_case :
        (b : Bool) (o : Option ReciveNode)
        → uncaught (elim b [
          | false ↦ read_header p s copy_len bytes
          | true ↦ elim o [ none ↦ faulty | some recv ↦ read_body s recv copy_len bytes ]
        ])
          ≡ elim b [
            | false ↦ V3Read.read_header p s copy_len bytes
            | true ↦ elim o [ none ↦ corrupt | some recv ↦ V3Read.read_body s recv copy_len bytes ]
          ]
    by_case false o = read_header-V3 p s copy_len bytes
    by_case true none = refl
    by_case true (some recv) = read_body-V3 s recv copy_len bytes

-- The outcome where the handler does not catch.
abbrev pub without_catch : Outcome → V3Read.Outcome
without_catch (returned s acts) = V3Read.returned s acts
without_catch (caught s acts) = V3Read.threw_after acts
without_catch corrupted = V3Read.corrupted
without_catch unfinished = V3Read.unfinished

pub prepend-V3 :
    (acts : List Action) (o : Outcome)
    → without_catch (prepend acts o) ≡ V3Read.prepend acts (without_catch o)
prepend-V3 acts (returned s bs) = refl
prepend-V3 acts (caught s bs) = refl
prepend-V3 acts corrupted = refl
prepend-V3 acts unfinished = refl

proceed-V3 :
    (r : Try Round) (next : Session → ℕ → ℕ → Outcome) (next' : Session → ℕ → ℕ → V3Read.Outcome)
    → ((s : Session) (c n : ℕ) → without_catch (next s c n) ≡ next' s c n)
    → without_catch (proceed r next) ≡ V3Read.proceed (uncaught r) next'
unfolding proceed V3Read.proceed
proceed-V3 (done (returns s acts)) next next' h = refl
proceed-V3 (done (continues s c n acts)) next next' h =
    prepend-V3 acts (next s c n) ∙ ap (V3Read.prepend acts) (h s c n)
proceed-V3 (raised s) next next' h = refl
proceed-V3 faulty next next' h = refl

-- A round of the loop, if there are bytes left.
next_round :
    (p : Platform) (s : Session) (c n : ℕ) (b : Bool) (next : Session → ℕ → ℕ → Outcome)
    (next' : Session → ℕ → ℕ → V3Read.Outcome)
    → ((s' : Session) (c' n' : ℕ) → without_catch (next s' c' n') ≡ next' s' c' n')
    → without_catch (elim b [ true ↦ returned s [] | false ↦ proceed (round p s c n) next ])
      ≡ elim b [ true ↦ V3Read.returned s [] | false ↦ V3Read.proceed (V3Read.round p s c n) next' ]
next_round p s c n true next next' h = refl
next_round p s c n false next next' h =
    proceed-V3 (round p s c n) next next' h ∙ ap (λ r. V3Read.proceed r next') (round-V3 p s c n)

read_loop-V3 :
    (p : Platform) (fuel : ℕ) (s : Session) (c n : ℕ)
    → without_catch (read_loop p fuel s c n) ≡ V3Read.read_loop p fuel s c n
unfolding read_loop V3Read.read_loop
read_loop-V3 p zero s c n = refl
read_loop-V3 p (suc fuel) s c n =
    next_round p s c n (n == 0) (read_loop p fuel) (V3Read.read_loop p fuel) (read_loop-V3 p fuel)

-- HandleRead of the multi-threaded server does on every call what that of version 3 does: it returns in
-- the same state and asks for the same, and it catches an exception exactly where that of version 3
-- throws one, after the same calls.
pub handle_read-V3 :
    (p : Platform) (s : Session) (error : Bool) (bytes : ℕ)
    → without_catch (handle_read p s error bytes) ≡ V3Read.handle_read p s error bytes
unfolding handle_read V3Read.handle_read Mt.close V3.close
handle_read-V3 p s true bytes = refl
handle_read-V3 p s false bytes = read_loop-V3 p (suc bytes) s 0 bytes
