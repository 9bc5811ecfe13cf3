-- ===== src/Whole/Tests.antt =====
-- Two rounds with a request of three bytes, which is cut in the second one.
use async_echo_server.Base.{ℕ, ◌≡◌, refl, List, [], ◌∷◌, map, flatten, ok, arith, replicate}
use async_echo_server.Platform.Examples.{little_endian}
use async_echo_server.Platform.{short_of_size}
use async_echo_server.Memory.{zeros, length-zeros}
use async_echo_server.Wire.Frames.{frame, IsAcceptable}
use async_echo_server.Session.{Session, async_read, new_session, start}
use async_echo_server.Logic.Examples.{
  small_json, num, str, read_text, read_member, read_int, read_string, write_member, styled,
}
use async_echo_server.Client.{talk}
use async_echo_server.Client.Examples.{low_first}
use async_echo_server.Client.Talk.{reply_of}
use async_echo_server.Whole.{Rounds}
use async_echo_server.Whole.Answered.{Understood, answer}
use async_echo_server.Whole.RoundTrip.{conversation}

abbrev request : List ℕ
request = 5 ∷ 104 ∷ 105 ∷ []

abbrev understood : Understood small_json request
unfolding read_text read_member read_int read_string
understood = record {
  id_value = num 5;
  data_value = str (104 ∷ 105 ∷ []);
  number = 5;
  string = 104 ∷ 105 ∷ [];
  has_id = refl;
  is_number = refl;
  has_data = refl;
  is_string = refl;
}

small : IsAcceptable (answer small_json request understood)
unfolding styled write_member read_text short_of_size understood
small = record { small_id = omega arith; small_text = omega arith }

abbrev cuts : List (List (List ℕ))
cuts =
    ((3 ∷ 233 ∷ 0 ∷ 3 ∷ 5 ∷ 104 ∷ 105 ∷ []) ∷ [])
    ∷ ((3 ∷ []) ∷ (233 ∷ 0 ∷ 3 ∷ 5 ∷ []) ∷ (104 ∷ 105 ∷ []) ∷ [])
    ∷ []

conversation_example :
    (made started : Session) × (new_session (7 ∷ []) (zeros 2048) ≡ ok made)
    × (start made ≡ ok (started, async_read ∷ []))
    × ((written : List ℕ) × (s' : Session) × Rounds little_endian small_json started cuts written s'
        × (talk little_endian low_first 2 request written
            ≡ ok (
              replicate 2 (reply_of (answer small_json request understood)),
              flatten (map flatten cuts),
              [],
            )))
unfolding flatten frame
conversation_example =
    conversation little_endian low_first small_json request (omega arith) understood small (7 ∷ [])
      (zeros 2048) cuts (length-zeros 2048) (((omega arith, tt), refl), ((omega arith, refl), tt))
