-- ===== src/Platform.antt =====
-- What the servers take from the machine and from Boost.Asio when they move a `short` between
-- memory and the wire, and the machine integers of the code.
--
-- A `short` is its bit pattern, below 2 ^ 16; a `size_t` is a number below 2 ^ 64. An `int` that is
-- computed from shorts is only ever used as a `size_t` by this code (the third argument of
-- `memcpy`, an operand beside a `size_t`, an offset into a buffer), so it is kept in that form.
mod Machine
pub mod Examples
unfoldable pub use Machine.*
use async_echo_server.Base.{ℕ, ◌+◌, ◌*◌, ◌/◌, ◌%◌, ◌^◌, ◌<◌, ◌≡◌}

-- `store` and `load` are the two bytes of a `short` in memory (what `memcpy` of two bytes from and
-- to a `short` does); the other two are `boost::asio::detail::socket_ops`. Their laws are those of
-- `htons` and `ntohs`: network order is the high byte first.
pub record Platform : Type 0 where
  pub store : ℕ → ℕ × ℕ
  pub load : ℕ → ℕ → ℕ
  pub host_to_network_short : ℕ → ℕ
  pub network_to_host_short : ℕ → ℕ
  pub store-host_to_network :
      (w : ℕ) → w < 2 ^ 16 → store (host_to_network_short w) ≡ (w / 256, w % 256)
  pub network_to_host-load :
      (a b : ℕ) → a < 256 → b < 256 → network_to_host_short (load a b) ≡ a * 256 + b

-- The `short` that the code reads from two bytes of a header.
abbrev pub short_at : Platform → ℕ → ℕ → ℕ
short_at p a b = p.network_to_host_short (p.load a b)
