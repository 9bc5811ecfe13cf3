-- ===== src/Logic/Jsoncpp.antt =====
-- What the callback uses of jsoncpp, which is not part of the repository.
use async_echo_server.Base.{ℕ, Option, List, ◌≡◌, some}

-- The two members that the code names.
pub data Key : Type 0 where
  id_member : Key
  data_member : Key

-- `member k root` is `root[k]`: it may add an empty member to `root`, so it gives the root anew, and
-- it throws (`none`) where the root is no object. `as_int` (a 32-bit pattern) and `as_string` throw
-- on a value that does not convert. The law: where a root has an id, assigning to its data leaves it.
pub record Json : Type 1 where
  pub Value : Type 0
  pub parse : List ℕ → Value
  pub member : Key → Value → Option (Value × Value)
  pub as_int : Value → Option ℕ
  pub as_string : Value → Option (List ℕ)
  pub assign : Key → List ℕ → Value → Value
  pub to_styled_string : Value → List ℕ
  pub id-assign :
      (v x : Value) (s : List ℕ)
      → member id_member v ≡ some (v, x)
      → member id_member (assign data_member s v) ≡ some (assign data_member s v, x)
