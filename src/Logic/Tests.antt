-- ===== src/Logic/Tests.antt =====
-- The logic system with a small instance of jsoncpp.
use async_echo_server.Base.{◌++◌, inl, inr, take, true, ◌≡◌, refl, some, [], ◌∷◌}
use async_echo_server.Platform.{size_of_short, short_of_size}
use async_echo_server.MsgNode.{text}
use async_echo_server.Logic.{
  LogicSystem, Reply, hello_world, find, register, register_call_backs, new_logic_system,
  post_msg_to_queue, greeting, hello_world_call_back, call_back, int_member, string_member,
  LogicNode,
}
use async_echo_server.Logic.Deal.{goes_on, ends, deal_msg, serve}
use async_echo_server.Logic.Serve.{answers, stop-answers}
use async_echo_server.Logic.Desk
use async_echo_server.Logic.Wakeup
use async_echo_server.Logic.Examples.{
  small_json, hello, num, str, read_text, read_member, read_int, read_string, write_member, styled,
}
use async_echo_server.Logic.Jsoncpp.{data_member}
use async_echo_server.Logic.Answer.{hello_world_call_back-reply}

-- A message with an id that no callback takes.
abbrev stray : LogicNode
stray = record hello { recvnode = record hello.recvnode { msg_id = 9 } }

hello_world_call_back-reply_example :
    hello_world_call_back small_json (7 ∷ []) (5 ∷ 104 ∷ 105 ∷ [])
    ≡ some (record {
      session = 7 ∷ [];
      text =
          styled (
            write_member data_member (greeting ++ 104 ∷ 105 ∷ []) (read_text (5 ∷ 104 ∷ 105 ∷ [])));
      id = short_of_size 5;
    })
unfolding read_text read_member read_int read_string
hello_world_call_back-reply_example =
    hello_world_call_back-reply small_json (7 ∷ []) (5 ∷ 104 ∷ 105 ∷ []) (num 5)
      (str (104 ∷ 105 ∷ [])) 5 (104 ∷ 105 ∷ []) refl refl refl refl

abbrev told_to_stop : LogicSystem
told_to_stop = record new_logic_system { msg_queue = hello ∷ stray ∷ []; b_stop = true }

abbrev hello_reply : Reply
hello_reply = record { session = 7 ∷ []; text = 5 ∷ greeting ++ 104 ∷ 105 ∷ []; id = 5 }

hello-call_back : call_back small_json hello_world hello ≡ some hello_reply
unfolding call_back hello_world_call_back int_member string_member short_of_size read_text
    read_member read_int read_string write_member styled text size_of_short take
hello-call_back = refl

stop-answers_example :
    deal_msg small_json told_to_stop
    ≡ ends (record told_to_stop { msg_queue = [] }) (answers small_json (hello ∷ stray ∷ []))
unfolding new_logic_system
stop-answers_example =
    stop-answers small_json told_to_stop refl refl
      (inr (hello_reply, hello-call_back), (inl refl, tt))

abbrev one_post : Desk.Desk
one_post = record Desk.opening {
  system = (post_msg_to_queue new_logic_system hello).0;
  posted = hello ∷ [];
}

hello_turn : deal_msg small_json one_post.system ≡ goes_on new_logic_system (hello_reply ∷ [])
unfolding call_back hello_world_call_back int_member string_member short_of_size read_text
    read_member read_int read_string write_member styled text size_of_short take deal_msg serve
    post_msg_to_queue new_logic_system find register_call_backs register
hello_turn = refl

abbrev one_answer : Desk.Desk
one_answer = record { system = new_logic_system; posted = hello ∷ []; replies = hello_reply ∷ [] }

-- One message is posted and answered, and the system is told to stop.
answered_in_order_example :
    hello_reply ∷ [] ++ answers small_json new_logic_system.msg_queue
    ≡ answers small_json (hello ∷ [])
answered_in_order_example = Desk.answered_in_order small_json (
    Desk.next (Desk.next (Desk.here) (Desk.posts hello refl))
      (Desk.turns new_logic_system (hello_reply ∷ []) hello_turn refl))

abbrev sleeping : Wakeup.Threads
sleeping = record Wakeup.opening { worker = Wakeup.asleep }

never_sleeps_on_work_example : new_logic_system.msg_queue ≡ []
unfolding new_logic_system
never_sleeps_on_work_example =
    Wakeup.never_sleeps_on_work small_json {t = sleeping}
      (Wakeup.next (Wakeup.next Wakeup.here (Wakeup.look refl refl refl refl))
        (Wakeup.block refl refl))
      refl

abbrev about_to_wait : Wakeup.Threads
about_to_wait = record Wakeup.opening { worker = Wakeup.deciding }

stop_can_be_lost_example :
    (u : Wakeup.Threads) × Wakeup.Run small_json about_to_wait u × Wakeup.Stuck small_json u
stop_can_be_lost_example = Wakeup.stop_can_be_lost small_json about_to_wait refl refl
