-- ===== src/Client/Reply.antt =====
-- How a client reads a reply.
use async_echo_server.Base.{
  ◌∙◌, [], ◌∷◌, take, drop, replicate, ℕ, ◌≡◌, refl, ap, ap₂, List, ◌++◌, ok, arith, length, le→leb,
  le→ltb, take-append, drop-append, length-append, get_or, ◌/◌, ◌%◌,
}
use async_echo_server.Platform.{Platform, short_of_size, size_of_short_lem}
use async_echo_server.Memory.{zeros, splice, memcpy}
use async_echo_server.MsgNode.{get_short}
use async_echo_server.Wire.{Message}
use async_echo_server.Wire.Frames.{big_endian, frame, IsAcceptable, short_at-big_endian}
use async_echo_server.Client.{LowFirst, read_bytes, read_reply, buffer_size, max_length}

-- Reading as many bytes as the front of the stream has.
pub read_bytes-append :
    (xs ys : List ℕ) (n : ℕ) → n ≡ length xs → read_bytes (xs ++ ys) n ≡ ok (xs, ys)
unfolding read_bytes
read_bytes-append xs ys n e =
    rw (le→leb n (length (xs ++ ys)) (omega (arith, e, length-append xs ys)))
      (ap ok (ap₂ (λ a b. (a, b)) (take-append n xs ys e) (drop-append n xs ys e)))

module _ (p : Platform) (low : LowFirst p) (m : Message) (small : IsAcceptable m) where
  id_read :
      p.network_to_host_short (short_of_size (low.int_load (m.id / 256 ∷ m.id % 256 ∷ 0 ∷ 0 ∷ [])))
      ≡ m.id
  id_read =
      ap p.network_to_host_short
        (low.int_load-short (m.id / 256) (m.id % 256) (omega (arith, small.small_id)) (omega arith))
      ∙ short_at-big_endian p m.id small.small_id

  length_read :
      p.network_to_host_short (p.load (length m.text / 256) (length m.text % 256)) ≡ length m.text
  length_read = short_at-big_endian p (length m.text) small.small_text

  -- A reply that is a frame with an id and a length of at most 2048, with whatever comes behind it, is
  -- read as its id and its text, and leaves what comes behind.
  pub read_reply-frame :
      (rest : List ℕ) → read_reply p low (frame m ++ rest) ≡ ok (m.id, m.text, rest)
  unfolding read_reply buffer_size memcpy splice zeros replicate take drop short_of_size frame
      get_short get_or
  read_reply-frame rest = rw (
    read_bytes-append (big_endian m.id ++ big_endian (length m.text)) (m.text ++ rest) 4 refl,
    id_read,
    length_read,
    size_of_short_lem (length m.text) (omega (arith, small.small_text)),
    le→ltb max_length (length m.text) (omega (arith, small.small_text)),
    read_bytes-append m.text rest (length m.text) refl,
  )
