-- ===== src/Logic/Desk.antt =====
-- The two threads of the logic system: posts, turns of DealMsg and the stop, in any order.
use async_echo_server.Base.{
  false≢true, Bool-cases, append_assoc, append-nil, ◌≢◌, Option-cases, inl, inr, true, false, sym,
  ap, ◌∙◌, ◌≡◌, refl, List, [], ◌∷◌, ◌++◌, arith, Bool,
}
use async_echo_server.Logic.Jsoncpp.{Json}
use async_echo_server.Logic.{
  LogicNode, LogicSystem, Reply, find, call_back, new_logic_system, post_msg_to_queue,
}
use async_echo_server.Logic.Deal.{
  goes_on, serve, Turn, drain, with_reply, ends, throws, waits, deal_msg,
}
use async_echo_server.Logic.Serve.{
  answers, answers-append, IsRegistered, serve-answers, drain-answers,
}

-- The logic system, with the messages that were posted and the replies that were sent.
pub record Desk : Type 0 where
  pub system : LogicSystem
  pub posted : List LogicNode
  pub replies : List Reply

abbrev pub opening : Desk
opening = record { system = new_logic_system; posted = []; replies = [] }

module _ (j : Json) where
  -- The calls of the two threads, in any order.
  pub data Step (d e : Desk) : Type 0 where
    posts :
        (node : LogicNode)
        → e ≡ record d {
          system = (post_msg_to_queue d.system node).0;
          posted = d.posted ++ node ∷ [];
        }
        → Step d e
    turns :
        (l : LogicSystem) (replies : List Reply)
        → deal_msg j d.system ≡ goes_on l replies
        → e ≡ record d { system = l; replies = d.replies ++ replies }
        → Step d e
    stops : e ≡ record d { system = record d.system { b_stop = true } } → Step d e
    finishes :
        (l : LogicSystem) (replies : List Reply)
        → deal_msg j d.system ≡ ends l replies
        → e ≡ record d { system = l; replies = d.replies ++ replies }
        → Step d e

  pub data Reach : Desk → Type 0 where
    here : Reach opening
    next : {d e : Desk} → Reach d → Step d e → Reach e

module _ (j : Json) where
  record Inv (d : Desk) : Type 0 where
    registered : IsRegistered j d.system
    due : d.replies ++ answers j d.system.msg_queue ≡ answers j d.posted

  opening-Inv : Inv opening
  unfolding new_logic_system answers
  opening-Inv = record { registered = refl; due = refl }

  posts-Inv :
      (d : Desk) (node : LogicNode)
      → Inv d
      → Inv (record d {
        system = (post_msg_to_queue d.system node).0;
        posted = d.posted ++ node ∷ [];
      })
  unfolding post_msg_to_queue
  posts-Inv d node v = record {
    registered = v.registered;
    due =
        ap (◌++◌ d.replies) (answers-append j d.system.msg_queue (node ∷ []))
        ∙ sym (append_assoc d.replies (answers j d.system.msg_queue) (answers j (node ∷ [])))
        ∙ ap (λ k. k ++ answers j (node ∷ [])) v.due
        ∙ sym (answers-append j d.posted (node ∷ []));
  }

  -- A turn that answers the front of the queue, or all of it.
  turn-Inv :
      (d : Desk) (l : LogicSystem) (replies : List Reply)
      → Inv d
      → replies ++ answers j l.msg_queue ≡ answers j d.system.msg_queue
      → IsRegistered j l
      → Inv (record d { system = l; replies = d.replies ++ replies })
  turn-Inv d l replies v same reg = record {
    registered = reg;
    due = append_assoc d.replies replies (answers j l.msg_queue) ∙ ap (◌++◌ d.replies) same ∙ v.due;
  }

  drained :
      (l l' : LogicSystem) (replies : List Reply)
      → (replies ≡ answers j l.msg_queue) × (l' ≡ record l { msg_queue = [] })
      → IsRegistered j l
      → (replies ++ answers j l'.msg_queue ≡ answers j l.msg_queue) × IsRegistered j l'
  unfolding answers
  drained l l' replies (same, left) reg = rw (left, append-nil replies) (same, reg)

  is_over : Turn → Bool
  is_over waits = false
  is_over (goes_on l replies) = false
  is_over (ends l replies) = true
  is_over (throws replies) = true

  is_over-with_reply : (r : Reply) (t : Turn) → is_over (with_reply r t) ≡ is_over t
  unfolding is_over
  is_over-with_reply r waits = refl
  is_over-with_reply r (goes_on l replies) = refl
  is_over-with_reply r (ends l replies) = refl
  is_over-with_reply r (throws replies) = refl

  is_over-drain : (l : LogicSystem) (queue : List LogicNode) → is_over (drain j l queue) ≡ true
  unfolding drain is_over
  is_over-drain l [] = refl
  is_over-drain l (node ∷ queue) =
      elim (Option-cases (find node.recvnode.msg_id l.function_call_back)) [
        | inl f ↦ rw (f, drain) (is_over-drain l queue)
        | inr (g, f) ↦ elim (Option-cases (call_back j g node)) [
          | inl c ↦ rw (f, drain, c)
          | inr (reply, c) ↦
              rw (f, drain, c) (is_over-with_reply reply (drain j l queue) ∙ is_over-drain l queue)
        ]
      ]

  drain-goes_on :
      (l l' : LogicSystem) (queue : List LogicNode) (replies : List Reply)
      → drain j l queue ≢ goes_on l' replies
  unfolding is_over
  drain-goes_on l l' queue replies e = false≢true (sym (ap is_over e) ∙ is_over-drain l queue)

  serve-ends :
      (l l' : LogicSystem) (queue : List LogicNode) (replies : List Reply)
      → serve j l queue ≢ ends l' replies
  unfolding serve
  serve-ends l l' [] replies e = cc
  serve-ends l l' (node ∷ queue) replies e = ground arith

  stopped : (l : LogicSystem) → l.b_stop ≡ true → deal_msg j l ≡ drain j l l.msg_queue
  unfolding deal_msg
  stopped l t = ground arith

  running : (l : LogicSystem) → l.b_stop ≡ false → deal_msg j l ≡ serve j l l.msg_queue
  unfolding deal_msg
  running l f = ground arith

  -- A turn that goes on has served the front; one that ends has emptied the queue.
  goes_on-serve :
      (l l' : LogicSystem) (replies : List Reply)
      → deal_msg j l ≡ goes_on l' replies
      → serve j l l.msg_queue ≡ goes_on l' replies
  goes_on-serve l l' replies e = elim (Bool-cases l.b_stop) [
    | inl t ↦ absurd (drain-goes_on l l' l.msg_queue replies (sym (stopped l t) ∙ e))
    | inr f ↦ sym (running l f) ∙ e
  ]

  ends-drain :
      (l l' : LogicSystem) (replies : List Reply)
      → deal_msg j l ≡ ends l' replies
      → drain j l l.msg_queue ≡ ends l' replies
  ends-drain l l' replies e = elim (Bool-cases l.b_stop) [
    | inl t ↦ sym (stopped l t) ∙ e
    | inr f ↦ absurd (serve-ends l l' l.msg_queue replies (sym (running l f) ∙ e))
  ]

  Step-Inv : {d e : Desk} → Step j d e → Inv d → Inv e
  Step-Inv {d} (posts node same) v = rw same (posts-Inv d node v)
  Step-Inv {d} (turns l replies t same) v =
      let (due, reg) =
        serve-answers j d.system l d.system.msg_queue replies v.registered
          (goes_on-serve d.system l replies t) in
      rw same (turn-Inv d l replies v due reg)
  Step-Inv {d} (stops same) v = rw same (record { registered = v.registered; due = v.due })
  Step-Inv {d} (finishes l replies t same) v =
      let (due, reg) =
        drained d.system l replies
          (drain-answers j d.system l d.system.msg_queue replies v.registered
            (ends-drain d.system l replies t))
          v.registered in
      rw same (turn-Inv d l replies v due reg)

  Reach-Inv : {d : Desk} → Reach j d → Inv d
  Reach-Inv here = opening-Inv
  Reach-Inv (next r st) = Step-Inv st (Reach-Inv r)

  -- After any history of posts, turns of `DealMsg` and a stop in which no callback throws, the
  -- replies that were sent, followed by those that the queued messages are still due, are the
  -- answers to all posted messages in the order of the posts: none is lost, doubled or overtaken.
  pub answered_in_order :
      {d : Desk} → Reach j d → d.replies ++ answers j d.system.msg_queue ≡ answers j d.posted
  answered_in_order r = (Reach-Inv r).due
