-- ===== src/Session/Receive/Examples.antt =====
-- A session that waits for its first header.
use async_echo_server.Base.{take, arith, refl, [], ◌∷◌, false, none}
use async_echo_server.Memory.{zeros, length-zeros}
use async_echo_server.Session.{Session}
use async_echo_server.Session.Receive.State.{AtHeader}

-- A session that has been started.
abbrev pub waiting : Session
waiting = record {
  uuid = 7 ∷ [];
  buffer = zeros 2048;
  b_close = false;
  send_que = [];
  recv_msg_node = none;
  b_head_parse = false;
  recv_head_node = record { cur_len = 0; total_len = 4; chars = 0 ∷ 0 ∷ 0 ∷ 0 ∷ 0 ∷ [] };
}

pub waiting-AtHeader : AtHeader waiting []
unfolding take
waiting-AtHeader = record {
  parse = refl;
  room = length-zeros 2048;
  head_total = refl;
  head_room = refl;
  cur = refl;
  short = omega arith;
  kept = refl;
}
