-- ===== src/Whole/RoundTrip.antt =====
-- A thread of the client, and the session and the logic system that answer it.
use async_echo_server.Base.{
  ℕ, ◌+◌, ◌≤◌, ◌≡◌, refl, ap, sym, ◌∙◌, List, [], ◌∷◌, ◌++◌, map, flatten, length, ok, arith, All,
  replicate, suc,
}
use async_echo_server.Platform.{Platform}
use async_echo_server.Wire.Frames.{frame, IsAcceptable}
use async_echo_server.Session.{Session, async_read, new_session, start}
use async_echo_server.Session.Receive.RoundTrip.{start-AtHeader}
use async_echo_server.Session.Receive.Stream.{IsChunk}
use async_echo_server.Logic.Jsoncpp.{Json}
use async_echo_server.Client.{LowFirst, max_length, hello_id, talk}
use async_echo_server.Client.Request.{send_request-frame}
use async_echo_server.Client.Reply.{read_reply-frame}
use async_echo_server.Client.Talk.{request_of, reply_of}
use async_echo_server.Whole.{Rounds, idle, round}
use async_echo_server.Whole.Answered.{Ready, Understood, answer, round-answers}

module _ (p : Platform) (m : LowFirst p) (j : Json) (request : List ℕ)
    (fits : length request + 4 ≤ max_length) (u : Understood j request)
    (small : IsAcceptable (answer j request u)) where
  -- What comes in for one round: the bytes of the request, cut in some way.
  abbrev pub IsRequest : List (List ℕ) → Type 0
  IsRequest chunks = All IsChunk chunks × (flatten chunks ≡ frame (request_of request))

  talk-suc :
      (n : ℕ) (stream : List ℕ) {replies : List (ℕ × List ℕ)} {sent left : List ℕ}
      → talk p m n request stream ≡ ok (replies, sent, left)
      → talk p m (suc n) request (frame (answer j request u) ++ stream)
        ≡ ok (reply_of (answer j request u) ∷ replies, frame (request_of request) ++ sent, left)
  unfolding talk
  talk-suc n stream e = rw (
    send_request-frame p m hello_id request (omega arith) fits,
    read_reply-frame p m (answer j request u) small stream,
    e,
  )

  -- From a session between two rounds.
  talk-answered :
      (rounds : List (List (List ℕ))) (s : Session)
      → Ready s
      → All IsRequest rounds
      → (written : List ℕ) × (s' : Session) × Rounds p j s rounds written s'
        × Ready s'
        × (talk p m (length rounds) request written
            ≡ ok (
              replicate (length rounds) (reply_of (answer j request u)),
              flatten (map flatten rounds),
              [],
            ))
  unfolding flatten replicate
  talk-answered [] s r h = ([], s, idle, r, unfold talk in refl)
  talk-answered (chunks ∷ rounds) s r h =
      let (t, first, between) = round-answers j request p fits u small s chunks r h.0.0 h.0.1 in
      let (written, s', others, r', said) = talk-answered rounds t between h.1 in
      (
        frame (answer j request u) ++ written,
        s',
        round first others,
        r',
        talk-suc (length rounds) written said
            ∙ ap
                (λ k. ok (
                  reply_of (answer j request u)
                      ∷ replicate (length rounds) (reply_of (answer j request u)),
                  k ++ flatten (map flatten rounds),
                  [],
                ))
                (sym h.0.1),
      )

  -- A whole conversation. On machines with the low bytes first, let the request of a client be a
  -- text of at most 2044 bytes in which jsoncpp finds a number as its id and a string as its data,
  -- and let the answer, which is the same value with the greeting before its data under the number
  -- cut to 16 bits, have at most 2048 bytes and an id of at most 2048. A session of version 3 that
  -- has just been made and started, and that gets the frame of the request once for each round, cut
  -- into chunks of 1 to 2048 bytes in any way, goes through all rounds: in each it posts one
  -- message, the worker sends one reply to this session, `Send` writes it at once and the write
  -- completes. A client thread that reads what was written in all rounds has written exactly what
  -- came in, and gets the answer once for each round, with no byte left.
  pub conversation :
      (uuid buffer : List ℕ) (rounds : List (List (List ℕ)))
      → length buffer ≡ max_length
      → All IsRequest rounds
      → (made started : Session) × (new_session uuid buffer ≡ ok made)
        × (start made ≡ ok (started, async_read ∷ []))
        × ((written : List ℕ) × (s' : Session) × Rounds p j started rounds written s'
            × (talk p m (length rounds) request written
                ≡ ok (
                  replicate (length rounds) (reply_of (answer j request u)),
                  flatten (map flatten rounds),
                  [],
                )))
  conversation uuid buffer rounds room h =
      let (made, started, created, armed, header, empty) = start-AtHeader uuid buffer room in
      let (written, s', served, between, said) =
        talk-answered rounds started (record { header = header; empty = empty }) h in
      (made, started, created, armed, (written, s', served, said))
