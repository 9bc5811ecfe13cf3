-- ===== src/Memory.antt =====
-- `char` arrays as lists of bytes, and the C library's `memset` and `memcpy` on them: a call that
-- would leave an array is `corrupt`.
mod Laws
mod Defs
pub use Laws.*
unfoldable pub use Defs.{zeros, splice, memset, memcpy, put_char, new_chars}
