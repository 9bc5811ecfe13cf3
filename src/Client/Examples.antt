-- ===== src/Client/Examples.antt =====
-- The bytes of an `int` on a machine that has the low ones first.
use async_echo_server.Base.{ℕ, ◌+◌, ◌*◌, ◌/◌, ◌%◌, ◌^◌, ◌<◌, ◌≡◌, List, [], ◌∷◌, arith, ap, ap₂}
use async_echo_server.Platform.Examples.{little_endian, swap_bytes}
use async_echo_server.Platform.{short_of_size}
use async_echo_server.Client.{LowFirst}

pub high_bytes :
    (w : ℕ)
    → w < 2 ^ 16
    → ◌≡◌ {A = List ℕ}
        (swap_bytes w % 256
          ∷ swap_bytes w / 2 ^ 8 % 256
          ∷ swap_bytes w / 2 ^ 16 % 256
          ∷ swap_bytes w / 2 ^ 24
          ∷ [])
        (swap_bytes w % 256 ∷ swap_bytes w / 256 ∷ 0 ∷ 0 ∷ [])
unfolding swap_bytes
high_bytes w h =
    let second : swap_bytes w / 2 ^ 8 % 256 ≡ swap_bytes w / 256 = omega arith in
    let third : swap_bytes w / 2 ^ 16 % 256 ≡ 0 = omega arith in
    let fourth : swap_bytes w / 2 ^ 24 ≡ 0 = omega arith in
    ap (λ xs. swap_bytes w % 256 ∷ xs) (ap₂ ◌∷◌ second (ap₂ ◌∷◌ third (ap (λ x. x ∷ []) fourth)))

unfoldable pub low_int : List ℕ → ℕ
low_int [] = 0
low_int (b ∷ bs) = b + low_int bs * 256

pub low_int-short :
    (a b : ℕ) → a < 256 → b < 256 → short_of_size (low_int (a ∷ b ∷ 0 ∷ 0 ∷ [])) ≡ a + b * 256
unfolding low_int short_of_size
low_int-short a b h k = omega arith

abbrev pub low_first : LowFirst little_endian
low_first = record {
  int_bytes = λ n. n % 256 ∷ n / 2 ^ 8 % 256 ∷ n / 2 ^ 16 % 256 ∷ n / 2 ^ 24 ∷ [];
  int_bytes-short = high_bytes;
  int_load = low_int;
  int_load-short = low_int-short;
}
