-- ===== src/Version2/Session/Read.antt =====
-- CSession::HandleRead of version 2: a header is a length of two bytes, and a message that is complete
-- is sent back.
use async_echo_server.Base.{
  ℕ, zero, suc, Bool, true, false, none, some, List, [], ◌∷◌, ◌++◌, Exec, ok, threw, corrupt, ◌>>=◌,
  ltb, ◌==◌, if◌then◌else◌,
}
use async_echo_server.Platform.{Platform, size_of_short, add_size, sub_size, short_gt}
use async_echo_server.MsgNode.{MsgNode, clear, terminate, copy_in, advance, get_short, max_length}
use async_echo_server.Version2.{LongWire, head_length, int_of_short}
use async_echo_server.Version2.Session.{
  CSession, Request, clear_session, new_data_node, rearm, close, send_chars,
}

-- How a round of the loop ends: the handler returns, or the loop goes on with these values of
-- `copy_len` and `bytes_transferred`.
pub data Round : Type 0 where
  returns : CSession → List Request → Round
  continues : CSession → ℕ → ℕ → List Request → Round

-- How the handler ends. `unfinished` is the loop out of fuel.
pub data Outcome : Type 0 where
  returned : CSession → List Request → Outcome
  threw_after : List Request → Outcome
  corrupted : Outcome
  unfinished : Outcome

abbrev pub wait_for_more : CSession → Exec Round
wait_for_more s = do r ← rearm s; ok (returns r.0 r.1)

module _ (p : Platform) (l : LongWire) where
  -- The message is complete: send it back, and make ready for the next header.
  unfoldable pub finish_message : CSession → MsgNode → ℕ → ℕ → Exec Round
  unfolding int_of_short
  finish_message s recv copy_len bytes = do
    sent ←
        send_chars l (record s { recv_msg_node = some recv }) recv.chars
          (int_of_short recv.total_len)
    head ← clear s.recv_head_node
    let s' = record (sent.0) { b_head_parse = false; recv_head_node = head }
    if bytes == 0
        then (do r ← rearm s'; ok (returns r.0 (sent.1 ++ r.1)))
        else ok (continues s' copy_len bytes sent.1)

  -- The header is complete and accepted.
  unfoldable pub begin_message : CSession → ℕ → ℕ → ℕ → Exec Round
  unfolding finish_message
  begin_message s data_len copy_len bytes = do
    recv ← new_data_node data_len
    let len = size_of_short data_len
    if ltb bytes len
        then (do
          node ← copy_in recv s.buffer copy_len bytes
          wait_for_more
              (record s { recv_msg_node = some (advance node bytes); b_head_parse = true }))
        else (do
          node ← copy_in recv s.buffer copy_len len
          ended ← terminate (advance node len)
          finish_message s ended (add_size copy_len len) (sub_size bytes len))

  -- `!_b_head_parse`
  unfoldable pub read_header : CSession → ℕ → ℕ → Exec Round
  unfolding begin_message
  read_header s copy_len bytes =
      let cur = size_of_short s.recv_head_node.cur_len in
      if ltb (add_size bytes cur) head_length
      then (do
        head ← copy_in s.recv_head_node s.buffer copy_len bytes
        wait_for_more (record s { recv_head_node = advance head bytes }))
      else (do
        let head_remain = sub_size head_length cur
        head ← copy_in s.recv_head_node s.buffer copy_len head_remain
        let s' = record s { recv_head_node = head }
        raw_len ← get_short p head.chars 0
        let data_len = p.network_to_host_short raw_len
        if short_gt data_len max_length
            then ok (returns s' (clear_session ∷ []))
            else begin_message s' data_len (add_size copy_len head_remain)
                (sub_size bytes head_remain))

  -- `_b_head_parse`: go on with the message of an earlier chunk.
  unfoldable pub read_body : CSession → MsgNode → ℕ → ℕ → Exec Round
  unfolding finish_message
  read_body s recv copy_len bytes =
      let remain = sub_size (size_of_short recv.total_len) (size_of_short recv.cur_len) in
      if ltb bytes remain
      then (do
        node ← copy_in recv s.buffer copy_len bytes
        wait_for_more (record s { recv_msg_node = some (advance node bytes) }))
      else (do
        node ← copy_in recv s.buffer copy_len remain
        ended ← terminate (advance node remain)
        finish_message s ended (add_size copy_len remain) (sub_size bytes remain))

  -- A null `_recv_msg_node` is a fault.
  unfoldable pub round : CSession → ℕ → ℕ → Exec Round
  unfolding read_header read_body
  round s copy_len bytes = elim s.b_head_parse [
    | false ↦ read_header s copy_len bytes
    | true ↦ elim s.recv_msg_node [ none ↦ corrupt | some recv ↦ read_body s recv copy_len bytes ]
  ]

abbrev pub prepend : List Request → Outcome → Outcome
prepend acts (returned s bs) = returned s (acts ++ bs)
prepend acts (threw_after bs) = threw_after (acts ++ bs)
prepend acts corrupted = corrupted
prepend acts unfinished = unfinished

unfoldable pub proceed : Exec Round → (CSession → ℕ → ℕ → Outcome) → Outcome
proceed (ok (returns s acts)) next = returned s acts
proceed (ok (continues s copy_len bytes acts)) next = prepend acts (next s copy_len bytes)
proceed threw next = threw_after []
proceed corrupt next = corrupted

module _ (p : Platform) (l : LongWire) where
  -- `while (bytes_transferred > 0)`
  unfoldable pub read_loop : ℕ → CSession → ℕ → ℕ → Outcome
  unfolding round proceed
  read_loop zero s copy_len bytes = unfinished
  read_loop (suc fuel) s copy_len bytes = elim (bytes == 0) [
    | true ↦ returned s []
    | false ↦ proceed (round p l s copy_len bytes) (read_loop fuel)
  ]

  -- CSession::HandleRead. Each round uses up a byte, so the fuel is enough.
  unfoldable pub handle_read : CSession → Bool → ℕ → Outcome
  unfolding read_loop close
  handle_read s error bytes = elim error [
    | false ↦ read_loop (suc bytes) s 0 bytes
    | true ↦ let (s', acts) = close s in returned s' (acts ++ clear_session ∷ [])
  ]
