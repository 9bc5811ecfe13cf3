-- ===== src/Client/Talk.antt =====
-- A thread of the client, and the session of version 3 that it talks to.
use async_echo_server.Base.{
  ℕ, zero, suc, ◌+◌, ◌≤◌, ◌≡◌, refl, ap, sym, ◌∙◌, List, [], ◌∷◌, ◌++◌, map, flatten, length, ok,
  arith, All, replicate, append_assoc,
}
use async_echo_server.Platform.{Platform}
use async_echo_server.Wire.{Message}
use async_echo_server.Wire.Frames.{frame, IsAcceptable}
use async_echo_server.Session.{Session, Action}
use async_echo_server.Session.Receive.{returned}
use async_echo_server.Session.Receive.State.{AtHeader}
use async_echo_server.Session.Receive.Stream.{posted, receive, IsChunk}
use async_echo_server.Session.Receive.RoundTrip.{receive-frames}
use async_echo_server.Client.{LowFirst, max_length, hello_id, talk}
use async_echo_server.Client.Request.{send_request-frame}
use async_echo_server.Client.Reply.{read_reply-frame}

abbrev pub request_of : List ℕ → Message
request_of request = record { id = hello_id; text = request }

abbrev pub reply_of : Message → ℕ × List ℕ
reply_of m = (m.id, m.text)

-- The requests of so many rounds.
abbrev pub requests : ℕ → List ℕ → List Message
requests n request = replicate n (request_of request)

module _ (p : Platform) (m : LowFirst p) (request : List ℕ)
    (fits : length request + 4 ≤ max_length) where
  talk-frames :
      (replies : List Message) (rest : List ℕ)
      → All IsAcceptable replies
      → talk p m (length replies) request (flatten (map frame replies) ++ rest)
        ≡ ok (map reply_of replies, flatten (map frame (requests (length replies) request)), rest)
  unfolding talk flatten replicate
  talk-frames [] rest h = refl
  talk-frames (r ∷ replies) rest h = rw (
    send_request-frame p m hello_id request (omega arith) fits,
    append_assoc (frame r) (flatten (map frame replies)) rest,
    read_reply-frame p m r h.0 (flatten (map frame replies) ++ rest),
    talk-frames replies rest h.1,
  )

  requests-IsAcceptable : (n : ℕ) → All IsAcceptable (requests n request)
  unfolding replicate
  requests-IsAcceptable zero = tt
  requests-IsAcceptable (suc n) =
      (record { small_id = omega arith; small_text = omega arith }, requests-IsAcceptable n)

  -- On a machine with the low bytes first, a thread of the client with a text of at most 2044 bytes,
  -- whose stream has a frame for each of its rounds, each with an id and a length of at most 2048: it
  -- reads the replies in order and leaves what comes behind; and what it writes, however it is cut into
  -- chunks of 1 to 2048 bytes, makes a session of version 3 that waits for a header post exactly one
  -- message with the id 1001 and the text for each round, and wait for a new header.
  pub talk-served :
      (replies : List Message) (rest : List ℕ) (s : Session) (chunks : List (List ℕ))
      → All IsAcceptable replies
      → AtHeader s []
      → All IsChunk chunks
      → flatten chunks ≡ flatten (map frame (requests (length replies) request))
      → (talk p m (length replies) request (flatten (map frame replies) ++ rest)
          ≡ ok (map reply_of replies, flatten chunks, rest))
        × ((s' : Session) × (acts : List Action) × (receive p s chunks ≡ returned s' acts)
            × (posted acts ≡ requests (length replies) request)
            × AtHeader s' [])
  talk-served replies rest s chunks ok_replies a ok_chunks same = (
    talk-frames replies rest ok_replies ∙ ap (λ k. ok (map reply_of replies, k, rest)) (sym same),
    receive-frames p s (requests (length replies) request) chunks a
        (requests-IsAcceptable (length replies)) ok_chunks same,
  )
