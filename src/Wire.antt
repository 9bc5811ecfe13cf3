-- ===== src/Wire.antt =====
-- What the framing of Server-version-3 promises, with no buffer in it: a receiver that takes the
-- stream of a connection one byte at a time. A frame is an id, a length and that many bytes; the
-- two numbers are `short`s in network order.
pub mod Laws
pub mod Frames
use async_echo_server.Base.{
  ℕ, ◌+◌, Bool, true, false, List, [], ◌∷◌, ◌++◌, map, length, get_or, ◌==◌, if◌then◌else◌,
}
use async_echo_server.Platform.{Platform, short_at, short_gt, is_negative}

pub record Message : Type 0 where
  pub id : ℕ
  pub text : List ℕ

-- Waiting for the rest of a header, or of a message with this id and length, of which these bytes
-- have come; or done with the connection, since a field of a header was too large (`refused`) or a
-- length negative (`failed`).
pub data Receiver : Type 0 where
  header : List ℕ → Receiver
  body : ℕ → ℕ → List ℕ → Receiver
  refused : Receiver
  failed : Receiver

abbrev pub limit : ℕ
limit = 2048

abbrev pub Reception : Type 0
Reception = Receiver × List Message

-- The bytes of a message, complete or not.
unfoldable pub gather : ℕ → ℕ → List ℕ → Reception
gather id len text =
    if length text == len
    then (header [], record { id = id; text = text } ∷ [])
    else (body id len text, [])

-- A header with these fields.
unfoldable pub open_message : ℕ → ℕ → Reception
open_message id len =
    if short_gt id limit
    then (refused, [])
    else if short_gt len limit
    then (refused, [])
    else if is_negative len
    then (failed, [])
    else gather id len []

-- The four bytes of a header.
unfoldable pub begin : Platform → List ℕ → Reception
begin p h =
    open_message (short_at p (get_or h 0 0) (get_or h 1 0))
      (short_at p (get_or h 2 0) (get_or h 3 0))

unfoldable pub feed : Platform → Receiver → ℕ → Reception
feed p (header h) b = let h' = h ++ b ∷ [] in if length h' == 4 then begin p h' else (header h', [])
feed p (body id len text) b = gather id len (text ++ b ∷ [])
feed p refused b = (refused, [])
feed p failed b = (failed, [])

-- Messages that were complete before those of `r`.
abbrev pub after : List Message → Reception → Reception
after ms r = (r.0, ms ++ r.1)

unfoldable pub absorb : Platform → Receiver → List ℕ → Reception
absorb p rx [] = (rx, [])
absorb p rx (b ∷ bs) = after (feed p rx b).1 (absorb p (feed p rx b).0 bs)
