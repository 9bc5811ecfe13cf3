-- ===== src/Client.antt =====
-- json-Client/main.cpp: what a client writes for a request, and how it reads a reply.
pub mod Request
pub mod Reply
pub mod Talk
pub mod Single
pub mod Examples
mod Tests
use async_echo_server.Base.{
  zero, suc, ℕ, ◌+◌, ◌^◌, ◌<◌, ◌≡◌, List, [], ◌∷◌, ◌++◌, Exec, ok, threw, corrupt, ◌>>=◌, leb, ltb,
  length, take, drop, if◌then◌else◌, ◌*◌,
}
use async_echo_server.Platform.{Platform, size_of_short, short_of_size}
use async_echo_server.Memory.{zeros, memcpy}
use async_echo_server.MsgNode.{get_short, put_short}

abbrev pub max_length : ℕ
max_length = 1024 * 2

abbrev pub head_length : ℕ
head_length = 2

abbrev pub head_total : ℕ
head_total = 4

-- A machine whose `int` has its low bytes first, as the client needs: it copies two bytes out of an
-- `int` that holds a converted `short`, and two bytes into an `int` that is zero.
pub record LowFirst (p : Platform) : Type 0 where
  pub int_bytes : ℕ → List ℕ
  pub int_bytes-short :
      (w : ℕ)
      → w < 2 ^ 16
      → int_bytes (p.host_to_network_short w)
        ≡ (p.store (p.host_to_network_short w)).0
          ∷ (p.store (p.host_to_network_short w)).1
          ∷ 0
          ∷ 0
          ∷ []
  pub int_load : List ℕ → ℕ
  pub int_load-short :
      (a b : ℕ) → a < 256 → b < 256 → short_of_size (int_load (a ∷ b ∷ 0 ∷ 0 ∷ [])) ≡ p.load a b

module _ (p : Platform) where
  -- The bytes that `write` takes for a request; `c_str()` has a zero behind the text. A buffer of an
  -- array ends where the array does.
  unfoldable pub send_request : LowFirst p → ℕ → List ℕ → Exec (List ℕ)
  unfolding zeros
  send_request m msgid request =
      let request_length = length request in
      do
        d₁ ← memcpy (zeros max_length) 0 (m.int_bytes (p.host_to_network_short msgid)) 0 2
        d₂ ← memcpy d₁ 2 (m.int_bytes (p.host_to_network_short (short_of_size request_length))) 0 2
        d₃ ← memcpy d₂ 4 (request ++ 0 ∷ []) 0 request_length
        ok (take (request_length + 4) d₃)

-- `boost::asio::read` of a buffer of n bytes, from what the server has written; it throws where the
-- connection ends before.
unfoldable pub read_bytes : List ℕ → ℕ → Exec (List ℕ × List ℕ)
read_bytes stream n = if leb n (length stream) then ok (take n stream, drop n stream) else threw

-- The size of `buffer(array, n)` for an array of MAX_LENGTH bytes: no more than the array has.
unfoldable pub buffer_size : ℕ → ℕ
buffer_size n = if ltb max_length n then max_length else n

module _ (p : Platform) where
  -- The id and the text of a reply, and the rest of the stream. The id is copied into an `int` of four
  -- bytes, and the length into a `short`.
  unfoldable pub read_reply : LowFirst p → List ℕ → Exec (ℕ × List ℕ × List ℕ)
  unfolding read_bytes buffer_size zeros
  read_reply m stream = do
    (reply_head, rest) ← read_bytes stream head_total
    id_bytes ← memcpy (zeros 4) 0 reply_head 0 head_length
    raw_len ← get_short p reply_head head_length
    let msgid = p.network_to_host_short (short_of_size (m.int_load id_bytes))
    let msglen = size_of_short (p.network_to_host_short raw_len)
    (msg, rest') ← read_bytes rest (buffer_size msglen)
    ok (msgid, msg, rest')

abbrev pub hello_id : ℕ
hello_id = 1001

-- The rounds that a thread makes.
abbrev pub round_count : ℕ
round_count = 100

module _ (p : Platform) (m : LowFirst p) where
  -- `while (i < 100)`, with so many rounds left: the replies, all bytes that were written, and what is
  -- left of the stream. The text of the request is the same in each round.
  unfoldable pub talk : ℕ → List ℕ → List ℕ → Exec (List (ℕ × List ℕ) × List ℕ × List ℕ)
  unfolding send_request read_reply
  talk zero request stream = ok ([], [], stream)
  talk (suc n) request stream = do
    sent ← send_request p m hello_id request
    (msgid, msg, rest) ← read_reply p m stream
    (replies, more, left) ← talk n request rest
    ok ((msgid, msg) ∷ replies, sent ++ more, left)
