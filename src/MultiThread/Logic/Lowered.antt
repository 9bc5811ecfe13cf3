-- ===== src/MultiThread/Logic/Lowered.antt =====
-- The logic system of the multi-threaded server is that of version 3, whose greeting starts with a
-- capital letter, over a jsoncpp that writes a small one.
use async_echo_server.Base.{
  Option-cases, inl, inr, ℕ, ◌≡◌, refl, ap, ap₂, none, some, List, [], ◌∷◌, if◌then◌else◌, ◌==◌,
}
use async_echo_server.MsgNode.{msg_hello_word}
use async_echo_server.Logic as V3
use async_echo_server.Logic.{LogicNode, CallBack, hello_world, LogicSystem, Reply, find}
use async_echo_server.Logic.Jsoncpp.{Json}
use async_echo_server.Logic.Deal as V3Deal
use async_echo_server.Logic.Deal.{Turn, waits, goes_on, ends, throws, with_reply}
use async_echo_server.Logic.Serve as V3Serve
use async_echo_server.MultiThread.Logic.{
  hello_word_call_back, call_back, drain, serve, deal_msg, answers,
}

-- A text that starts with S starts with s.
abbrev small_letter : List ℕ → List ℕ
small_letter [] = []
small_letter (c ∷ cs) = (if c == 83 then 115 else c) ∷ cs

abbrev pub lowered : Json → Json
lowered j = record {
  Value = j.Value;
  parse = j.parse;
  member = j.member;
  as_int = j.as_int;
  as_string = j.as_string;
  assign = λ k s v. j.assign k (small_letter s) v;
  to_styled_string = j.to_styled_string;
  id-assign = λ v x s h. j.id-assign v x (small_letter s) h;
}

module _ (j : Json) where
  call_back-V3 :
      (f : CallBack) (node : LogicNode) → call_back j f node ≡ V3.call_back (lowered j) f node
  unfolding call_back hello_word_call_back V3.call_back V3.hello_world_call_back V3.int_member
      V3.string_member
  call_back-V3 hello_world node = refl

  drain-V3 :
      (l : LogicSystem) (queue : List LogicNode)
      → drain j l queue ≡ V3Deal.drain (lowered j) l queue
  unfolding drain V3Deal.drain
  drain-V3 l [] = refl
  drain-V3 l (node ∷ queue) = elim (Option-cases (find node.recvnode.msg_id l.function_call_back)) [
    | inl f ↦ rw (f, drain, V3Deal.drain) (drain-V3 l queue)
    | inr (g, f) ↦
        rw (f, drain, V3Deal.drain, ← call_back-V3 g node)
          (elim (Option-cases (call_back j g node)) [
            | inl c ↦ rw c
            | inr (reply, c) ↦ rw c (ap (with_reply reply) (drain-V3 l queue))
          ])
  ]

  serve-V3 :
      (l : LogicSystem) (queue : List LogicNode)
      → serve j l queue ≡ V3Deal.serve (lowered j) l queue
  unfolding serve V3Deal.serve
  serve-V3 l [] = refl
  serve-V3 l (node ∷ queue) = elim (Option-cases (find node.recvnode.msg_id l.function_call_back)) [
    | inl f ↦ rw (f, serve, V3Deal.serve)
    | inr (g, f) ↦ rw (f, serve, V3Deal.serve, ← call_back-V3 g node)
  ]

  pub deal_msg-V3 : (l : LogicSystem) → deal_msg j l ≡ V3Deal.deal_msg (lowered j) l
  unfolding deal_msg V3Deal.deal_msg
  deal_msg-V3 l =
      ap₂ (λ (a b : Turn). if l.b_stop then a else b) (drain-V3 l l.msg_queue)
        (serve-V3 l l.msg_queue)

  pub answers-V3 : (queue : List LogicNode) → answers j queue ≡ V3Serve.answers (lowered j) queue
  unfolding answers V3Serve.answers
  answers-V3 [] = refl
  answers-V3 (node ∷ queue) =
      ap₂
        (λ o rest.
          if msg_hello_word == node.recvnode.msg_id
          then elim o [ none ↦ rest | some reply ↦ reply ∷ rest ]
          else rest)
        (call_back-V3 hello_world node) (answers-V3 queue)
