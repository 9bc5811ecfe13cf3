-- ===== src/Session/Print/Tests.antt =====
-- A chunk of the bytes 65 and 128.
use async_echo_server.Base.{◌≡◌, [], ◌∷◌, ok, arith, map, flatten, take}
use async_echo_server.Session.Print.{print_recv_data}
use async_echo_server.Session.Print.Shown.{shown, print_recv_data-shown}

print_recv_data-shown_example :
    print_recv_data (65 ∷ 128 ∷ 0 ∷ []) 2
    ≡ ok (48 ∷ 120 ∷ flatten (map shown (take 2 (65 ∷ 128 ∷ 0 ∷ []))))
unfolding take
print_recv_data-shown_example =
    print_recv_data-shown (65 ∷ 128 ∷ 0 ∷ []) 2 (omega arith) (omega arith)
