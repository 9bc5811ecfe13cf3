-- ===== src/Version2/Examples.antt =====
-- The conversion of a length to four bytes of network order.
use async_echo_server.Base.{◌/◌, ◌%◌, ◌^◌, refl, [], ◌∷◌}
use async_echo_server.Version2.{LongWire}

abbrev pub long_wire : LongWire
long_wire = record {
  network_long = λ n. n / 2 ^ 24 ∷ n / 2 ^ 16 % 256 ∷ n / 2 ^ 8 % 256 ∷ n % 256 ∷ [];
  network_long-bytes = λ n h. refl;
}
