-- ===== src/Version2/Replies.antt =====
-- What CSession::Send of version 2 does with the texts of complete messages, as a queue of frames.
use async_echo_server.Base.{
  ℕ, ◌+◌, ◌<◌, ◌≤◌, ◌≡◌, inl, inr, List, [], ◌∷◌, ◌++◌, ok, arith, length, take, ltb, Bool-cases,
  if◌then◌else◌, take-append, lt→ltb,
}
use async_echo_server.Base.Runs.{run}
use async_echo_server.Platform.{short_of_size_lem, size_of_short_lem}
use async_echo_server.MsgNode.{MsgNode}
use async_echo_server.Version2.{LongWire, send, max_send_queue, int_of_short}
use async_echo_server.Version2.Frame.{new_frame_node-chars}

-- The bytes that go out for a text: the length in front of it is sent as zero.
abbrev pub echo_bytes : List ℕ → List ℕ
echo_bytes text = 0 ∷ 0 ∷ text

abbrev pub echo_node : List ℕ → MsgNode
echo_node text = record {
  cur_len = 0;
  total_len = length text + 2;
  chars = echo_bytes text ++ 0 ∷ [];
}

-- A text that is sent back: the queue, and what is written at once.
unfoldable pub reply : List MsgNode → List ℕ → List MsgNode × List (List ℕ)
reply que text =
    if ltb max_send_queue (length que)
    then (que, [])
    else (que ++ echo_node text ∷ [], if ltb 0 (length que) then [] else echo_bytes text ∷ [])

-- A row of texts.
abbrev pub replies : List MsgNode → List (List ℕ) → List MsgNode × List (List ℕ)
replies = run reply

pub take-echo : (text : List ℕ) → take (length text + 2) ((0 ∷ 0 ∷ text) ++ 0 ∷ []) ≡ 0 ∷ 0 ∷ text
take-echo text = take-append (length text + 2) (0 ∷ 0 ∷ text) (0 ∷ []) (omega arith)

-- Send of a text that stands at the start of the array, with a length that came from a `short`.
pub send-reply :
    (l : LongWire) (que : List MsgNode) (msg text : List ℕ)
    → length text ≤ length msg
    → length text + 2 < 0x8000
    → take (length text) msg ≡ text
    → send l que msg (int_of_short (length text)) ≡ ok (reply que text)
unfolding send reply int_of_short
send-reply l que msg text fits small same =
    rw
      (
        lt→ltb (length text) 0x8000 (omega arith),
        short_of_size_lem (length text) (omega arith),
        new_frame_node-chars l msg (length text) fits small,
        same,
        size_of_short_lem (length text + 2) small,
        take-echo text,
      )
      (elim (Bool-cases (ltb max_send_queue (length que))) [
        | inl e ↦ rw e
        | inr e ↦ rw e (elim (Bool-cases (ltb 0 (length que))) [ inl e' ↦ rw e' | inr e' ↦ rw e' ])
      ])
