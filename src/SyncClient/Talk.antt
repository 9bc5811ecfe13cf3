-- ===== src/SyncClient/Talk.antt =====
-- The client and the server of version 2, each on a machine with the low bytes first.
use async_echo_server.Base.{
  true, ℕ, ◌+◌, ◌*◌, ◌/◌, ◌%◌, ◌≤◌, ◌<◌, ◌≡◌, refl, ap, ap₂, ◌∙◌, subst, false, List, [], ◌∷◌, ◌++◌,
  map, ok, arith, length, take, drop, take-append, take-zero, drop-zero, length-append, get_or,
}
use async_echo_server.Base.Runs.{ahead, run-append, run-nil}
use async_echo_server.Platform.{Platform, short_gt, is_negative, size_of_short}
use async_echo_server.Memory.{
  zeros, length-zeros, memcpy, memcpy_lem, splice, length-splice, take-splice,
}
use async_echo_server.MsgNode.{get_short}
use async_echo_server.Client.{buffer_size}
use async_echo_server.Client.Reply.{read_bytes-append}
use async_echo_server.Version2.{LongWire}
use async_echo_server.Version2.Wire.{
  limit, header, refused, feed, absorb, open_message, begin, absorb-header_full, absorb-refused,
}
use async_echo_server.Version2.Replies.{reply, echo_bytes}
use async_echo_server.Version2.Session.{CSession, async_write, clear_session}
use async_echo_server.Version2.Session.Read.{
  Outcome, returned, threw_after, corrupted, unfinished, handle_read,
}
use async_echo_server.Version2.Session.State.{AtHeader}
use async_echo_server.Version2.Session.Refine.{Meets}
use async_echo_server.Version2.Session.History.{arrived-echoes, arrive}
use async_echo_server.SyncClient.{LittleEndian, max_length, send_request, read_reply}

-- The length in the byte order of the machine, and the text.
abbrev pub low_frame : List ℕ → List ℕ
low_frame request = (length request % 256 ∷ length request / 256 ∷ []) ++ request

-- What the client writes.
module _ {p : Platform} (m : LittleEndian p) (request : List ℕ)
    (fits : length request + 2 ≤ max_length) where
  one : List ℕ
  one = splice (zeros max_length) 0 (length request % 256 ∷ length request / 256 ∷ [])

  length-one : length one ≡ max_length
  unfolding one
  length-one =
      length-splice (zeros max_length) 0 (length request % 256 ∷ length request / 256 ∷ [])
        (omega (arith, length-zeros max_length))
      ∙ length-zeros max_length

  length_copied : memcpy (zeros max_length) 0 (m.size_bytes (length request)) 0 2 ≡ ok one
  unfolding one take drop
  length_copied =
      ap (λ src. memcpy (zeros max_length) 0 src 0 2)
        (m.size_bytes-short (length request) (omega arith))
      ∙ memcpy_lem (zeros max_length) 0 _ 0 2 (omega (arith, length-zeros max_length)) (omega arith)

  two : List ℕ
  two = splice one 2 (take (length request) (drop 0 (request ++ 0 ∷ [])))

  copied : take (length request) (drop 0 (request ++ 0 ∷ [])) ≡ request
  copied =
      ap (take (length request)) (drop-zero (request ++ 0 ∷ []))
      ∙ take-append (length request) request (0 ∷ []) refl

  length-two : length two ≡ max_length
  unfolding two
  length-two =
      length-splice one 2 (take (length request) (drop 0 (request ++ 0 ∷ [])))
        (omega (arith, length-one, ap length copied))
      ∙ length-one

  written : take (2 + length request) two ≡ low_frame request
  unfolding two one
  written =
      ap (λ k. take k two) (omega arith)
      ∙ take-splice one 2 (length request + 2) (take (length request) (drop 0 (request ++ 0 ∷ [])))
          (omega (arith, length-one)) (omega (arith, ap length copied))
      ∙ ap₂ ◌++◌
          (take-splice (zeros max_length) 0 2 (length request % 256 ∷ length request / 256 ∷ [])
              (omega arith) (omega arith)
            ∙ ap (λ k. k ++ length request % 256 ∷ length request / 256 ∷ [])
                (take-zero (zeros max_length)))
          copied

  pub send_request-low : send_request m request ≡ ok (low_frame request)
  unfolding send_request two
  send_request-low = rw (
    length_copied,
    memcpy_lem one 2 (request ++ 0 ∷ []) 0 (length request) (omega (arith, length-one))
        (omega (arith, length-append request (0 ∷ []))),
    written,
  )

too_long : (w : ℕ) → limit < w → w < 0x8000 → short_gt w limit ≡ true
unfolding short_gt is_negative
too_long w low high = ground arith

-- The server reads the two bytes of the length in the other order.
begin-low_frame :
    (p : Platform) (n : ℕ) → 9 ≤ n → n < 128 → begin p (n % 256 ∷ n / 256 ∷ []) ≡ (refused, [])
unfolding begin open_message get_or
begin-low_frame p n low high = rw (
  p.network_to_host-load (n % 256) (n / 256) (omega arith) (omega arith),
  too_long (n % 256 * 256 + n / 256) (omega arith) (omega arith),
)

absorb-low_frame :
    (p : Platform) (request : List ℕ)
    → 9 ≤ length request
    → length request < 128
    → absorb p (header []) (low_frame request) ≡ (refused, [])
absorb-low_frame p request low high =
    run-append (feed p) (header []) (length request % 256 ∷ length request / 256 ∷ []) request
    ∙ ap (λ q. ahead (feed p) q.1 (absorb p q.0 request))
        (absorb-header_full p [] (length request % 256 ∷ length request / 256 ∷ []) (omega arith)
            refl
          ∙ begin-low_frame p (length request) low high)
    ∙ ap (ahead (feed p) []) (absorb-refused p request)

-- A handler that meets a refused stream has asked for the removal only.
Meets-refused :
    (o : Outcome)
    → Meets [] (refused, []) o
    → (s : CSession) × (o ≡ returned s (clear_session ∷ []))
Meets-refused (returned s acts) m = (
  s,
  ap (returned s) (m.1 ∙ ap (λ q. map async_write q.1 ++ clear_session ∷ []) (run-nil reply [])),
)
Meets-refused (threw_after acts) m = cc
Meets-refused corrupted m = cc
Meets-refused unfinished m = absurd m

-- A reply of the server, with its two zero bytes, is read as an empty text.
read_reply-echo :
    {p : Platform} (m : LittleEndian p) (text rest : List ℕ)
    → read_reply p (echo_bytes text ++ rest) ≡ ok ([], text ++ rest)
unfolding read_reply buffer_size get_short get_or size_of_short short_gt is_negative
read_reply-echo m text rest = rw (
  read_bytes-append (0 ∷ 0 ∷ []) (text ++ rest) 2 refl,
  m.load-low 0 0 (omega arith) (omega arith),
  read_bytes-append [] (text ++ rest) 0 refl,
)

-- The client and the server of version 2 do not agree on the length. On machines with the low bytes
-- first, a request of 9 to 127 bytes, as the text in the code, that reaches a session which waits for
-- a header with an empty queue makes HandleRead drop the session without an answer; and the client
-- reads a frame that the server sends as an empty text, and takes its text for the next header.
pub request-refused :
    {p : Platform} (m : LittleEndian p) (l : LongWire) (s : CSession) (request rest : List ℕ)
    → AtHeader s []
    → s.send_que ≡ []
    → 9 ≤ length request
    → length request < 128
    → (sent : List ℕ) × (send_request m request ≡ ok sent)
      × ((s' : CSession) × (handle_read p l (arrive s sent) false (length sent)
            ≡ returned s' (clear_session ∷ [])))
      × (read_reply p (echo_bytes request ++ rest) ≡ ok ([], request ++ rest))
request-refused {p} m l s request rest a e low high = (
  low_frame request,
  send_request-low m request (omega arith),
  Meets-refused _ (
      subst
        (λ r.
          Meets [] r
            (handle_read p l (arrive s (low_frame request)) false (length (low_frame request))))
        (absorb-low_frame p request low high)
        (subst
          (λ q.
            Meets q (absorb p (header []) (low_frame request))
              (handle_read p l (arrive s (low_frame request)) false (length (low_frame request))))
          e (arrived-echoes p l s (low_frame request) (header []) a (omega arith, omega arith)))),
  read_reply-echo m request rest,
)
