-- ===== src/SyncClient.antt =====
-- Client/SyncClient.cpp, the client of version 2: what its threads write for a request, and how they
-- read a reply.
pub mod Talk
mod Tests
use async_echo_server.Base.{
  ℕ, ◌+◌, ◌*◌, ◌/◌, ◌%◌, ◌^◌, ◌<◌, ◌≡◌, List, [], ◌∷◌, ◌++◌, Exec, ok, threw, corrupt, ◌>>=◌, leb,
  ltb, length, take, drop, if◌then◌else◌,
}
use async_echo_server.Platform.{Platform, size_of_short, short_gt}
use async_echo_server.Memory.{zeros, memcpy}
use async_echo_server.MsgNode.{get_short}
use async_echo_server.Client.{read_bytes, buffer_size}

abbrev pub max_length : ℕ
max_length = 2048

abbrev pub header_length : ℕ
header_length = 2

-- "Hellow world !"
abbrev pub request_message : List ℕ
request_message = 72 ∷ 101 ∷ 108 ∷ 108 ∷ 111 ∷ 119 ∷ 32 ∷ 119 ∷ 111 ∷ 114 ∷ 108 ∷ 100 ∷ 32 ∷ 33 ∷ []

-- The bytes of a `size_t` in memory, on a machine with the low bytes first.
pub record LittleEndian (p : Platform) : Type 0 where
  pub size_bytes : ℕ → List ℕ
  pub size_bytes-short :
      (n : ℕ) → n < 2 ^ 16 → size_bytes n ≡ n % 256 ∷ n / 256 ∷ 0 ∷ 0 ∷ 0 ∷ 0 ∷ 0 ∷ 0 ∷ []
  pub load-low : (a b : ℕ) → a < 256 → b < 256 → p.load a b ≡ b * 256 + a

-- One turn of `send_thread`, with its text: the bytes that `write` takes. The text of the code has a
-- zero behind it, which `strlen` does not count.
unfoldable pub send_request : {p : Platform} → LittleEndian p → List ℕ → Exec (List ℕ)
unfolding zeros
send_request m request =
    let request_length = length request in
    do
      d₁ ← memcpy (zeros max_length) 0 (m.size_bytes request_length) 0 header_length
      d₂ ← memcpy d₁ header_length (request ++ 0 ∷ []) 0 request_length
      ok (take (header_length + request_length) d₂)

-- One turn of `recv_thread`: the text of a reply, and the rest of the stream. No more is read than
-- the array takes, but `cout.write` takes the length as it is and then reads behind the array.
unfoldable pub read_reply : Platform → List ℕ → Exec (List ℕ × List ℕ)
unfolding read_bytes buffer_size
read_reply p stream = do
  (reply_head, rest) ← read_bytes stream header_length
  msg_length ← get_short p reply_head 0
  (msg, rest') ← read_bytes rest (buffer_size (size_of_short msg_length))
  if short_gt msg_length max_length then corrupt else ok (msg, rest')
