-- ===== src/Client/Tests.antt =====
-- One round with a request of two bytes and a reply of one.
use async_echo_server.Base.{ℕ, ◌≡◌, List, [], ◌∷◌, ◌++◌, ok, arith, map, flatten, replicate, refl}
use async_echo_server.Platform.Examples.{little_endian}
use async_echo_server.Wire.{Message}
use async_echo_server.Wire.Frames.{frame, IsAcceptable}
use async_echo_server.Client.{talk}
use async_echo_server.Client.Examples.{low_first}
use async_echo_server.Client.Talk.{requests, reply_of, talk-served}
use async_echo_server.Session.{Session, Action}
use async_echo_server.Session.Receive.{returned}
use async_echo_server.Session.Receive.State.{AtHeader}
use async_echo_server.Session.Receive.Stream.{posted, receive}
use async_echo_server.Session.Receive.Examples.{waiting, waiting-AtHeader}

abbrev reply : Message
reply = record { id = 5; text = 104 ∷ [] }

reply-IsAcceptable : IsAcceptable reply
reply-IsAcceptable = record { small_id = omega arith; small_text = omega arith }

-- The request of one round, cut inside its header.
abbrev pieces : List (List ℕ)
pieces = (3 ∷ 233 ∷ 0 ∷ []) ∷ (2 ∷ 104 ∷ 105 ∷ []) ∷ []

talk-served_example :
    (talk little_endian low_first 1 (104 ∷ 105 ∷ []) (flatten (map frame (reply ∷ [])) ++ 9 ∷ [])
      ≡ ok (map reply_of (reply ∷ []), flatten pieces, 9 ∷ []))
    × ((s' : Session) × (acts : List Action) × (receive little_endian waiting pieces
          ≡ returned s' acts)
        × (posted acts ≡ requests 1 (104 ∷ 105 ∷ []))
        × AtHeader s' [])
unfolding frame flatten replicate
talk-served_example =
    talk-served little_endian low_first (104 ∷ 105 ∷ []) (omega arith) (reply ∷ []) (9 ∷ []) waiting
      pieces (reply-IsAcceptable, tt) waiting-AtHeader (omega arith) refl
