-- ===== src/Logic/Answer.antt =====
-- LogicSystem::HelloWorldCallBack: what it sends, and to whom.
use async_echo_server.Base.{◌≡◌, ℕ, List, ◌++◌, some}
use async_echo_server.Platform.{short_of_size}
use async_echo_server.Logic.Jsoncpp.{Json, id_member, data_member}
use async_echo_server.Logic.{greeting, int_member, string_member, hello_world_call_back, Key}

module _ (j : Json) where
  open j use {Value, parse, member, as_int, as_string, assign, to_styled_string, id-assign}

  int_member-some :
      (k : Key) (v w x : Value) (n : ℕ)
      → member k v ≡ some (w, x)
      → as_int x ≡ some n
      → int_member j k v ≡ some (w, n)
  unfolding int_member
  int_member-some k v w x n m a = rw (m, a)

  string_member-some :
      (k : Key) (v w x : Value) (s : List ℕ)
      → member k v ≡ some (w, x)
      → as_string x ≡ some s
      → string_member j k v ≡ some (w, s)
  unfolding string_member
  string_member-some k v w x s m a = rw (m, a)

  -- Where the text of a message reads as a value with an id that converts to an `int` and data that
  -- converts to a string, the callback sends one answer, to the session that the message came from:
  -- the value with the greeting put before its data, under the id cut to 16 bits.
  pub hello_world_call_back-reply :
      (session msg_data : List ℕ) (i d : Value) (n : ℕ) (s : List ℕ)
      → member id_member (parse msg_data) ≡ some (parse msg_data, i)
      → as_int i ≡ some n
      → member data_member (parse msg_data) ≡ some (parse msg_data, d)
      → as_string d ≡ some s
      → hello_world_call_back j session msg_data
        ≡ some (record {
          session = session;
          text = to_styled_string (assign data_member (greeting ++ s) (parse msg_data));
          id = short_of_size n;
        })
  unfolding hello_world_call_back
  hello_world_call_back-reply session msg_data i d n s mi ai md ad = rw (
    int_member-some id_member v v i n mi ai,
    string_member-some data_member v v d s md ad,
    string_member-some data_member v v d s md ad,
    int_member-some id_member w w i n (id-assign v i (greeting ++ s) mi) ai,
  )
    where
      v : Value
      v = parse msg_data

      w : Value
      w = assign data_member (greeting ++ s) v
