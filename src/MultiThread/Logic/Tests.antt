-- ===== src/MultiThread/Logic/Tests.antt =====
-- One message is posted and answered.
use async_echo_server.Base.{◌≡◌, refl, [], ◌∷◌, ◌++◌, take}
use async_echo_server.Platform.{size_of_short, short_of_size}
use async_echo_server.MsgNode.{text}
use async_echo_server.Logic.{Reply, find, register, int_member, string_member}
use async_echo_server.Logic.Examples.{
  small_json, hello, read_text, read_member, read_int, read_string, write_member, styled,
}
use async_echo_server.Logic.Deal.{goes_on}
use async_echo_server.MultiThread.Wakeup.{push_msg}
use async_echo_server.MultiThread.Logic.{
  greeting, new_logic_system, register_call_backs, hello_word_call_back, call_back, serve, deal_msg,
  answers,
}
use async_echo_server.MultiThread.Logic.Answered.{here, next, posts, turns, push, replies_in_order}

abbrev hello_reply : Reply
hello_reply = record { session = 7 ∷ []; text = 5 ∷ greeting ++ 104 ∷ 105 ∷ []; id = 5 }

hello_turn :
    deal_msg small_json (push new_logic_system hello) ≡ goes_on new_logic_system (hello_reply ∷ [])
unfolding call_back hello_word_call_back int_member string_member short_of_size read_text
    read_member read_int read_string write_member styled text size_of_short take deal_msg serve
    push_msg new_logic_system find register_call_backs register
hello_turn = refl

replies_in_order_example :
    hello_reply ∷ [] ++ answers small_json new_logic_system.msg_queue
    ≡ answers small_json (hello ∷ [])
replies_in_order_example =
    replies_in_order small_json
      {d = record { system = new_logic_system; posted = hello ∷ []; replies = hello_reply ∷ [] }}
      (next (next here (posts hello refl))
        (turns new_logic_system (hello_reply ∷ []) hello_turn refl))
