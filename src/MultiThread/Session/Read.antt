-- ===== src/MultiThread/Session/Read.antt =====
-- CSession::HandleRead of the multi-threaded server.
use async_echo_server.Base.{
  ℕ, zero, suc, Bool, true, false, none, some, List, [], ◌∷◌, ◌++◌, ltb, ◌==◌, if◌then◌else◌,
}
use async_echo_server.Platform.{Platform, size_of_short, add_size, sub_size, short_gt}
use async_echo_server.MsgNode.{
  ReciveNode, clear, terminate, copy_in, advance, get_short, head_total_len, head_id_len,
  max_length,
}
use async_echo_server.Session.{Session, Action, post_msg, clear_session}
use async_echo_server.Session.Receive.{Round, returns, continues}
use async_echo_server.MultiThread.Session.{new_recv_node, rearm, close}
use async_echo_server.MultiThread.Session.Try.{Try, done, raised, faulty, ◌>>=◌, attempt}

-- How the handler ends. After `caught` it has returned too, behind its `catch` block.
pub data Outcome : Type 0 where
  returned : Session → List Action → Outcome
  caught : Session → List Action → Outcome
  corrupted : Outcome
  unfinished : Outcome

abbrev pub wait_for_more : Session → Try Round
wait_for_more s = do r ← attempt s (rearm s); done (returns r.0 r.1)

-- PostMsgToQue, and the header node is made ready.
unfoldable pub finish_message : Session → ReciveNode → ℕ → ℕ → Try Round
finish_message s recv copy_len bytes =
    let s' = record s { recv_msg_node = some recv; b_head_parse = false } in
    do
      head ← attempt s' (clear s.recv_head_node)
      let s'' = record s' { recv_head_node = head }
      if bytes == 0
          then (do r ← attempt s'' (rearm s''); done (returns r.0 (post_msg recv ∷ r.1)))
          else done (continues s'' copy_len bytes (post_msg recv ∷ []))

-- The header is complete and accepted.
unfoldable pub begin_message : Session → ℕ → ℕ → ℕ → ℕ → Try Round
unfolding finish_message
begin_message s msg_id msg_len copy_len bytes = do
  recv ← attempt s (new_recv_node msg_len msg_id)
  let len = size_of_short msg_len
  let s' = record s { recv_msg_node = some recv }
  if ltb bytes len
      then (do
        node ← attempt s' (copy_in recv.node s.buffer copy_len bytes)
        let recv' = record recv { node = advance node bytes }
        wait_for_more (record s { recv_msg_node = some recv'; b_head_parse = true }))
      else (do
        node ← attempt s' (copy_in recv.node s.buffer copy_len len)
        ended ← attempt s' (terminate (advance node len))
        finish_message s (record recv { node = ended }) (add_size copy_len len)
            (sub_size bytes len))

-- `!_b_head_parse`
unfoldable pub read_header : Platform → Session → ℕ → ℕ → Try Round
unfolding begin_message
read_header p s copy_len bytes =
    let cur = size_of_short s.recv_head_node.cur_len in
    if ltb (add_size bytes cur) head_total_len
    then (do
      head ← attempt s (copy_in s.recv_head_node s.buffer copy_len bytes)
      wait_for_more (record s { recv_head_node = advance head bytes }))
    else (do
      let head_remain = sub_size head_total_len cur
      head ← attempt s (copy_in s.recv_head_node s.buffer copy_len head_remain)
      let s' = record s { recv_head_node = head }
      raw_id ← attempt s' (get_short p head.chars 0)
      let msg_id = p.network_to_host_short raw_id
      if short_gt msg_id max_length then done (returns s' (clear_session ∷ [])) else (do
        raw_len ← attempt s' (get_short p head.chars head_id_len)
        let msg_len = p.network_to_host_short raw_len
        if short_gt msg_len max_length
            then done (returns s' (clear_session ∷ []))
            else begin_message s' msg_id msg_len (add_size copy_len head_remain)
                (sub_size bytes head_remain)))

-- `_b_head_parse`
unfoldable pub read_body : Session → ReciveNode → ℕ → ℕ → Try Round
unfolding finish_message
read_body s recv copy_len bytes =
    let remain = sub_size (size_of_short recv.node.total_len) (size_of_short recv.node.cur_len) in
    if ltb bytes remain
    then (do
      node ← attempt s (copy_in recv.node s.buffer copy_len bytes)
      let recv' = record recv { node = advance node bytes }
      wait_for_more (record s { recv_msg_node = some recv' }))
    else (do
      node ← attempt s (copy_in recv.node s.buffer copy_len remain)
      ended ← attempt s (terminate (advance node remain))
      finish_message s (record recv { node = ended }) (add_size copy_len remain)
          (sub_size bytes remain))

-- A null `_recv_msg_node` is a fault.
unfoldable pub round : Platform → Session → ℕ → ℕ → Try Round
unfolding read_header read_body
round p s copy_len bytes = elim s.b_head_parse [
  | false ↦ read_header p s copy_len bytes
  | true ↦ elim s.recv_msg_node [ none ↦ faulty | some recv ↦ read_body s recv copy_len bytes ]
]

abbrev pub prepend : List Action → Outcome → Outcome
prepend acts (returned s bs) = returned s (acts ++ bs)
prepend acts (caught s bs) = caught s (acts ++ bs)
prepend acts corrupted = corrupted
prepend acts unfinished = unfinished

unfoldable pub proceed : Try Round → (Session → ℕ → ℕ → Outcome) → Outcome
proceed (done (returns s acts)) next = returned s acts
proceed (done (continues s copy_len bytes acts)) next = prepend acts (next s copy_len bytes)
proceed (raised s) next = caught s []
proceed faulty next = corrupted

-- `while (bytes_transferred > 0)`
unfoldable pub read_loop : Platform → ℕ → Session → ℕ → ℕ → Outcome
unfolding round proceed
read_loop p zero s copy_len bytes = unfinished
read_loop p (suc fuel) s copy_len bytes = elim (bytes == 0) [
  | true ↦ returned s []
  | false ↦ proceed (round p s copy_len bytes) (read_loop p fuel)
]

-- CSession::HandleRead
unfoldable pub handle_read : Platform → Session → Bool → ℕ → Outcome
unfolding read_loop close
handle_read p s error bytes = elim error [
  | false ↦ read_loop p (suc bytes) s 0 bytes
  | true ↦ let (s', acts) = close s in returned s' (acts ++ clear_session ∷ [])
]
