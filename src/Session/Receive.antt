-- ===== src/Session/Receive.antt =====
-- CSession::HandleRead: the loop that cuts the received bytes into messages.
pub mod Steps
pub mod Messages
pub mod State
pub mod Rounds
pub mod Bodies
pub mod Headers
pub mod Refine
pub mod Arrival
pub mod Stream
pub mod RoundTrip
pub mod Asks
pub mod Settles
pub mod Examples
mod Tests
use async_echo_server.Base.{
  ℕ, zero, suc, Bool, true, false, Option, none, some, List, [], ◌∷◌, ◌++◌, Exec, ok, threw,
  corrupt, ◌>>=◌, ltb, ◌==◌, if◌then◌else◌,
}
use async_echo_server.Platform.{Platform, size_of_short, add_size, sub_size, short_gt}
use async_echo_server.MsgNode.{
  MsgNode, ReciveNode, new_recive_node, clear, terminate, copy_in, advance, get_short,
  head_total_len, head_id_len, max_length,
}
use async_echo_server.Session.{
  Session, Action, async_read, post_msg, close_socket, clear_session, rearm, close,
}

-- How a round of the loop ends: the handler returns, or the loop goes on with these values of
-- `copy_len` and `bytes_transferred`. The list is what the round asked of the program.
pub data Round : Type 0 where
  returns : Session → List Action → Round
  continues : Session → ℕ → ℕ → List Action → Round

-- How the handler ends. `threw` keeps what was asked before the exception. `unfinished` is the loop
-- out of fuel.
pub data Outcome : Type 0 where
  returned : Session → List Action → Outcome
  threw_after : List Action → Outcome
  corrupted : Outcome
  unfinished : Outcome

abbrev pub leave : Exec (Session × List Action) → Exec Round
leave e = e >>= λ r. ok (returns r.0 r.1)

-- The message is complete: post it, make ready for the next header, and return if the chunk is used
-- up.
unfoldable pub finish_message : Session → ReciveNode → ℕ → ℕ → Exec Round
finish_message s recv copy_len bytes = do
  head ← clear s.recv_head_node
  let s' = record s { recv_msg_node = some recv; b_head_parse = false; recv_head_node = head }
  if bytes == 0
      then (rearm s' >>= λ r. ok (returns r.0 (post_msg recv ∷ r.1)))
      else ok (continues s' copy_len bytes (post_msg recv ∷ []))

-- The header is complete and accepted: the rest of the chunk goes into a new node.
unfoldable pub begin_message : Session → ℕ → ℕ → ℕ → ℕ → Exec Round
begin_message s msg_id msg_len copy_len bytes = do
  recv ← new_recive_node msg_len msg_id
  let len = size_of_short msg_len
  if ltb bytes len
      then (do
        node ← copy_in recv.node s.buffer copy_len bytes
        let recv' = record recv { node = advance node bytes }
        leave (rearm (record s { recv_msg_node = some recv'; b_head_parse = true })))
      else (do
        node ← copy_in recv.node s.buffer copy_len len
        ended ← terminate (advance node len)
        finish_message s (record recv { node = ended }) (add_size copy_len len)
            (sub_size bytes len))

-- `!_b_head_parse`
unfoldable pub read_header : Platform → Session → ℕ → ℕ → Exec Round
read_header p s copy_len bytes =
    let cur = size_of_short s.recv_head_node.cur_len in
    if ltb (add_size bytes cur) head_total_len
    then (do
      head ← copy_in s.recv_head_node s.buffer copy_len bytes
      leave (rearm (record s { recv_head_node = advance head bytes })))
    else (do
      let head_remain = sub_size head_total_len cur
      head ← copy_in s.recv_head_node s.buffer copy_len head_remain
      let s' = record s { recv_head_node = head }
      raw_id ← get_short p head.chars 0
      let msg_id = p.network_to_host_short raw_id
      if short_gt msg_id max_length then ok (returns s' (clear_session ∷ [])) else (do
        raw_len ← get_short p head.chars head_id_len
        let msg_len = p.network_to_host_short raw_len
        if short_gt msg_len max_length
            then ok (returns s' (clear_session ∷ []))
            else begin_message s' msg_id msg_len (add_size copy_len head_remain)
                (sub_size bytes head_remain)))

-- `_b_head_parse`: go on with the message of an earlier chunk.
unfoldable pub read_body : Session → ReciveNode → ℕ → ℕ → Exec Round
read_body s recv copy_len bytes =
    let remain = sub_size (size_of_short recv.node.total_len) (size_of_short recv.node.cur_len) in
    if ltb bytes remain
    then (do
      node ← copy_in recv.node s.buffer copy_len bytes
      let recv' = record recv { node = advance node bytes }
      leave (rearm (record s { recv_msg_node = some recv' })))
    else (do
      node ← copy_in recv.node s.buffer copy_len remain
      ended ← terminate (advance node remain)
      finish_message s (record recv { node = ended }) (add_size copy_len remain)
          (sub_size bytes remain))

-- A null `_recv_msg_node` is a fault.
unfoldable pub round : Platform → Session → ℕ → ℕ → Exec Round
unfolding read_header read_body begin_message finish_message
round p s copy_len bytes = elim s.b_head_parse [
  | false ↦ read_header p s copy_len bytes
  | true ↦ elim s.recv_msg_node [ none ↦ corrupt | some recv ↦ read_body s recv copy_len bytes ]
]

abbrev pub prepend : List Action → Outcome → Outcome
prepend acts (returned s bs) = returned s (acts ++ bs)
prepend acts (threw_after bs) = threw_after (acts ++ bs)
prepend acts corrupted = corrupted
prepend acts unfinished = unfinished

-- After a round: leave the handler, or go on.
unfoldable pub proceed : Exec Round → (Session → ℕ → ℕ → Outcome) → Outcome
proceed (ok (returns s acts)) next = returned s acts
proceed (ok (continues s copy_len bytes acts)) next = prepend acts (next s copy_len bytes)
proceed threw next = threw_after []
proceed corrupt next = corrupted

-- `while (bytes_transferred > 0)`
unfoldable pub read_loop : Platform → ℕ → Session → ℕ → ℕ → Outcome
read_loop p zero s copy_len bytes = unfinished
read_loop p (suc fuel) s copy_len bytes = elim (bytes == 0) [
  | true ↦ returned s []
  | false ↦ proceed (round p s copy_len bytes) (read_loop p fuel)
]

-- CSession::HandleRead. Each round uses up a byte, so `bytes_transferred` rounds and a last test
-- are enough (`Session.Receive.Refine`).
unfoldable pub handle_read : Platform → Session → Bool → ℕ → Outcome
handle_read p s error bytes = elim error [
  | false ↦ read_loop p (suc bytes) s 0 bytes
  | true ↦ let (s', acts) = close s in returned s' (acts ++ clear_session ∷ [])
]
