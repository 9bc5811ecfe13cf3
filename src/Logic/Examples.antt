-- ===== src/Logic/Examples.antt =====
-- A small instance of jsoncpp: the text of an object is its id and then its data.
use async_echo_server.Base.{ℕ, ◌≡◌, none, some, Option, List, [], ◌∷◌}
use async_echo_server.Logic.{LogicNode}
use async_echo_server.Logic.Jsoncpp.{Json, Key, id_member, data_member}

pub data Val : Type 0 where
  obj : ℕ → List ℕ → Val
  num : ℕ → Val
  str : List ℕ → Val

unfoldable pub read_text : List ℕ → Val
read_text [] = obj 0 []
read_text (n ∷ s) = obj n s

unfoldable pub read_member : Key → Val → Option (Val × Val)
read_member id_member (obj n s) = some (obj n s, num n)
read_member data_member (obj n s) = some (obj n s, str s)
read_member k (num n) = none
read_member k (str s) = none

unfoldable pub read_int : Val → Option ℕ
read_int (obj n s) = none
read_int (num n) = some n
read_int (str s) = none

unfoldable pub read_string : Val → Option (List ℕ)
read_string (obj n s) = none
read_string (num n) = none
read_string (str s) = some s

unfoldable pub write_member : Key → List ℕ → Val → Val
write_member id_member s v = v
write_member data_member s (obj n t) = obj n s
write_member data_member s (num n) = num n
write_member data_member s (str t) = str t

unfoldable pub styled : Val → List ℕ
styled (obj n s) = n ∷ s
styled (num n) = n ∷ []
styled (str s) = s

pub read_member-write_member :
    (v x : Val) (s : List ℕ)
    → read_member id_member v ≡ some (v, x)
    → read_member id_member (write_member data_member s v) ≡ some (write_member data_member s v, x)
unfolding read_member write_member
read_member-write_member (obj n t) x s e = cc
read_member-write_member (num n) x s e = cc
read_member-write_member (str t) x s e = cc

abbrev pub small_json : Json
small_json = record {
  Value = Val;
  parse = read_text;
  member = read_member;
  as_int = read_int;
  as_string = read_string;
  assign = write_member;
  to_styled_string = styled;
  id-assign = read_member-write_member;
}

abbrev pub hello : LogicNode
hello = record {
  session = 7 ∷ [];
  recvnode = record {
    node = record { cur_len = 3; total_len = 3; chars = 5 ∷ 104 ∷ 105 ∷ 0 ∷ [] };
    msg_id = 1001;
  };
}
