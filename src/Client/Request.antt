-- ===== src/Client/Request.antt =====
-- What a client writes for a request.
use async_echo_server.Base.{
  ap₂, take-zero, drop-zero, take-append, refl, ℕ, ◌+◌, ◌≤◌, ◌<◌, ◌≡◌, ◌^◌, ap, ◌∙◌, List, [], ◌∷◌,
  ◌++◌, ok, arith, length, take, drop, length-append,
}
use async_echo_server.Platform.{Platform, short_of_size_lem}
use async_echo_server.Memory.{
  take-splice, zeros, length-zeros, memcpy, memcpy_lem, splice, length-splice, length-window,
}
use async_echo_server.Wire.Frames.{big_endian, frame}
use async_echo_server.Client.{LowFirst, max_length, send_request}

short_copied :
    (p : Platform) (m : LowFirst p) (dst : List ℕ) (off w : ℕ)
    → off + 2 ≤ length dst
    → w < 2 ^ 16
    → memcpy dst off (m.int_bytes (p.host_to_network_short w)) 0 2
      ≡ ok (splice dst off (big_endian w))
unfolding take drop
short_copied p m dst off w h k =
    ap (λ src. memcpy dst off src 0 2) (m.int_bytes-short w k)
    ∙ memcpy_lem dst off _ 0 2 h (omega arith)
    ∙ ap (λ q. ok (splice dst off (q.0 ∷ q.1 ∷ []))) (p.store-host_to_network w k)

module _ (p : Platform) (m : LowFirst p) (id : ℕ) (request : List ℕ) (small_id : id < 2 ^ 16)
    (fits : length request + 4 ≤ max_length) where
  one : List ℕ
  one = splice (zeros max_length) 0 (big_endian id)

  two : List ℕ
  two = splice one 2 (big_endian (length request))

  three : List ℕ
  three = splice two 4 (take (length request) (drop 0 (request ++ 0 ∷ [])))

  length-one : length one ≡ max_length
  unfolding one
  length-one =
      length-splice (zeros max_length) 0 (big_endian id) (omega (arith, length-zeros max_length))
      ∙ length-zeros max_length

  length-two : length two ≡ max_length
  unfolding two
  length-two =
      length-splice one 2 (big_endian (length request)) (omega (arith, length-one)) ∙ length-one

  copied : length (take (length request) (drop 0 (request ++ 0 ∷ []))) ≡ length request
  copied =
      length-window (request ++ 0 ∷ []) 0 (length request)
        (omega (arith, length-append request (0 ∷ [])))

  length-three : length three ≡ max_length
  unfolding three
  length-three =
      length-splice two 4 (take (length request) (drop 0 (request ++ 0 ∷ [])))
        (omega (arith, length-two, copied))
      ∙ length-two

  written : take (length request + 4) three ≡ frame (record { id = id; text = request })
  unfolding three two one frame
  written =
      take-splice two 4 (length request + 4) (take (length request) (drop 0 (request ++ 0 ∷ [])))
        (omega (arith, length-two)) (omega (arith, copied))
      ∙ ap₂ ◌++◌
          (take-splice one 2 4 (big_endian (length request)) (omega (arith, length-one))
              (omega arith)
            ∙ ap (λ k. k ++ big_endian (length request))
                (take-splice (zeros max_length) 0 2 (big_endian id) (omega arith) (omega arith)
                  ∙ ap (λ k. k ++ big_endian id) (take-zero (zeros max_length))))
          (ap (take (length request)) (drop-zero (request ++ 0 ∷ []))
            ∙ take-append (length request) request (0 ∷ []) refl)

  -- The client writes for a text of at most 2044 bytes exactly the frame of its id and the text.
  pub send_request-frame :
      send_request p m id request ≡ ok (frame (record { id = id; text = request }))
  unfolding send_request one two three
  send_request-frame = rw (
    short_copied p m (zeros max_length) 0 id (omega (arith, length-zeros max_length)) small_id,
    short_of_size_lem (length request) (omega arith),
    short_copied p m one 2 (length request) (omega (arith, length-one)) (omega arith),
    memcpy_lem two 4 (request ++ 0 ∷ []) 0 (length request) (omega (arith, length-two))
        (omega (arith, length-append request (0 ∷ []))),
    written,
  )
