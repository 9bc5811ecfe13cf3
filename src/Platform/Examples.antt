-- ===== src/Platform/Examples.antt =====
-- Machines of both byte orders, with the conversions that Boost.Asio has on them.
use async_echo_server.Base.{ℕ, ◌+◌, ◌*◌, ◌/◌, ◌%◌, ◌^◌, ◌<◌, ◌≡◌, refl, ap₂, arith}
use async_echo_server.Platform.{Platform}

unfoldable pub swap_bytes : ℕ → ℕ
swap_bytes w = w % 256 * 256 + w / 256

pub little_store :
    (w : ℕ)
    → w < 2 ^ 16
    → ◌≡◌ {A = ℕ × ℕ} (swap_bytes w % 256, swap_bytes w / 256) (w / 256, w % 256)
unfolding swap_bytes
little_store w h = ap₂ (λ (a b : ℕ). (a, b)) (omega arith) (omega arith)

pub little_load : (a b : ℕ) → a < 256 → b < 256 → swap_bytes (a + b * 256) ≡ a * 256 + b
unfolding swap_bytes
little_load a b h k = omega arith

abbrev pub little_endian : Platform
little_endian = record {
  store = λ w. (w % 256, w / 256);
  load = λ a b. a + b * 256;
  host_to_network_short = swap_bytes;
  network_to_host_short = swap_bytes;
  store-host_to_network = little_store;
  network_to_host-load = little_load;
}

abbrev pub big_endian_machine : Platform
big_endian_machine = record {
  store = λ w. (w / 256, w % 256);
  load = λ a b. a * 256 + b;
  host_to_network_short = λ w. w;
  network_to_host_short = λ w. w;
  store-host_to_network = λ w h. refl;
  network_to_host-load = λ a b h k. refl;
}
