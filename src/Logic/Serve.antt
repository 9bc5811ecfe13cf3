-- ===== src/Logic/Serve.antt =====
-- LogicSystem::DealMsg: the answers that the queued messages are due, and what a turn sends.
use async_echo_server.Base.{
  Bool-cases, Option-cases, inl, inr, true, false, sym, ap, ◌∙◌, ℕ, ◌≡◌, refl, none, some, List, [],
  ◌∷◌, ◌++◌, if◌then◌else◌, ◌==◌, arith, ◌⊎◌, All,
}
use async_echo_server.MsgNode.{msg_hello_word}
use async_echo_server.Logic.Jsoncpp.{Json}
use async_echo_server.Logic.{
  LogicNode, hello_world, LogicSystem, Reply, find, register_call_backs, call_back,
}
use async_echo_server.Logic.Deal.{
  goes_on, serve, Turn, drain, with_reply, ends, throws, waits, deal_msg,
}

module _ (j : Json) where
  -- The answers that the posted messages are due: one for each message with the id of the one
  -- registered callback, none for the others.
  unfoldable pub answers : List LogicNode → List Reply
  answers [] = []
  answers (node ∷ queue) =
      if msg_hello_word == node.recvnode.msg_id
      then elim (call_back j hello_world node) [
        | none ↦ answers queue
        | some reply ↦ reply ∷ answers queue
      ]
      else answers queue

  pub answers-append : (xs ys : List LogicNode) → answers (xs ++ ys) ≡ answers xs ++ answers ys
  unfolding answers
  answers-append [] ys = refl
  answers-append (x ∷ xs) ys = ground (arith, answers-append xs ys)

  -- The table of callbacks is the one that the constructor makes.
  abbrev pub IsRegistered : LogicSystem → Type 0
  IsRegistered l = l.function_call_back ≡ register_call_backs []

  find-registered :
      (id : ℕ)
      → find id (register_call_backs []) ≡ (if msg_hello_word == id then some hello_world else none)
  unfolding find register_call_backs
  find-registered id = refl

  pub serve-answers :
      (l l' : LogicSystem) (queue : List LogicNode) (replies : List Reply)
      → IsRegistered l
      → serve j l queue ≡ goes_on l' replies
      → (replies ++ answers l'.msg_queue ≡ answers queue) × IsRegistered l'
  unfolding serve answers
  serve-answers l l' [] replies reg e = absurd (ground arith)
  serve-answers l l' (node ∷ queue) replies reg e =
      ground (arith, reg, find-registered node.recvnode.msg_id)

  with_reply-ends :
      (r : Reply) (t : Turn) (l' : LogicSystem) (rs : List Reply)
      → with_reply r t ≡ ends l' rs
      → (rs' : List Reply) × (t ≡ ends l' rs') × (rs ≡ r ∷ rs')
  with_reply-ends r waits l' rs e = cc
  with_reply-ends r (goes_on l qs) l' rs e = cc
  with_reply-ends r (ends l qs) l' rs e = (qs, cc, cc)
  with_reply-ends r (throws qs) l' rs e = cc

  drain-skip :
      (l : LogicSystem) (node : LogicNode) (queue : List LogicNode)
      → IsRegistered l
      → (msg_hello_word == node.recvnode.msg_id) ≡ false
      → (drain j l (node ∷ queue) ≡ drain j l queue) × (answers (node ∷ queue) ≡ answers queue)
  unfolding drain answers
  drain-skip l node queue reg f = ground (arith, reg, find-registered node.recvnode.msg_id)

  drain-throw :
      (l : LogicSystem) (node : LogicNode) (queue : List LogicNode)
      → IsRegistered l
      → (msg_hello_word == node.recvnode.msg_id) ≡ true
      → call_back j hello_world node ≡ none
      → drain j l (node ∷ queue) ≡ throws []
  unfolding drain
  drain-throw l node queue reg t c = ground (arith, reg, find-registered node.recvnode.msg_id)

  drain-reply :
      (l : LogicSystem) (node : LogicNode) (queue : List LogicNode) (reply : Reply)
      → IsRegistered l
      → (msg_hello_word == node.recvnode.msg_id) ≡ true
      → call_back j hello_world node ≡ some reply
      → (drain j l (node ∷ queue) ≡ with_reply reply (drain j l queue))
        × (answers (node ∷ queue) ≡ reply ∷ answers queue)
  unfolding drain answers
  drain-reply l node queue reply reg t c = (found, rw (t, c))
    where
      registered : find node.recvnode.msg_id l.function_call_back ≡ some hello_world
      registered = ap (find node.recvnode.msg_id) reg ∙ find-registered node.recvnode.msg_id ∙ rw t

      found : drain j l (node ∷ queue) ≡ with_reply reply (drain j l queue)
      found = rw (registered, drain, c)

  -- After a stop the worker answers all that is queued and leaves the queue empty.
  pub drain-answers :
      (l l' : LogicSystem) (queue : List LogicNode) (replies : List Reply)
      → IsRegistered l
      → drain j l queue ≡ ends l' replies
      → (replies ≡ answers queue) × (l' ≡ record l { msg_queue = [] })
  unfolding drain answers
  drain-answers l l' [] replies reg e = (cc, cc)
  drain-answers l l' (node ∷ queue) replies reg e =
      elim (Bool-cases (msg_hello_word == node.recvnode.msg_id)) [
        | inl t ↦ elim (Option-cases (call_back j hello_world node)) [
          | inl c ↦ cc (drain-throw l node queue reg t c)
          | inr (reply, c) ↦
              let (step, due) = drain-reply l node queue reply reg t c in
              let (rest, e', cons) =
                with_reply-ends reply (drain j l queue) l' replies (sym step ∙ e) in
              let (same, left) = drain-answers l l' queue rest reg e' in
              (cons ∙ ap (◌∷◌ reply) same ∙ sym due, left)
        ]
        | inr f ↦
            let (step, due) = drain-skip l node queue reg f in
            let (same, left) = drain-answers l l' queue replies reg (sym step ∙ e) in
            (same ∙ sym due, left)
      ]

module _ (j : Json) where
  -- A message that no callback takes, or whose callback returns.
  abbrev pub Returns : LogicNode → Type 0
  Returns node =
      ((msg_hello_word == node.recvnode.msg_id) ≡ false)
      ⊎ ((reply : Reply) × (call_back j hello_world node ≡ some reply))

  drain-All :
      (l : LogicSystem) (queue : List LogicNode)
      → IsRegistered j l
      → All Returns queue
      → drain j l queue ≡ ends (record l { msg_queue = [] }) (answers j queue)
  drain-All l [] reg h = unfold drain answers in refl
  drain-All l (node ∷ queue) reg (inl f, h) =
      let (step, due) = drain-skip j l node queue reg f in
      step ∙ drain-All l queue reg h ∙ ap (ends (record l { msg_queue = [] })) (sym due)
  drain-All l (node ∷ queue) reg (inr (reply, c), h) =
      elim (Bool-cases (msg_hello_word == node.recvnode.msg_id)) [
        | inl t ↦
            let (step, due) = drain-reply j l node queue reply reg t c in
            step
            ∙ ap (with_reply reply) (drain-All l queue reg h)
            ∙ ap (ends (record l { msg_queue = [] })) (sym due)
        | inr f ↦
            let (step, due) = drain-skip j l node queue reg f in
            step ∙ drain-All l queue reg h ∙ ap (ends (record l { msg_queue = [] })) (sym due)
      ]

  stopped-drain : (l : LogicSystem) → l.b_stop ≡ true → deal_msg j l ≡ drain j l l.msg_queue
  unfolding deal_msg
  stopped-drain l t = ground arith

  -- Once the system is told to stop, with the callbacks of the constructor and no callback that
  -- throws on a queued message, the next turn answers every message in the queue, in order, leaves
  -- the queue empty and ends the worker.
  pub stop-answers :
      (l : LogicSystem)
      → IsRegistered j l
      → l.b_stop ≡ true
      → All Returns l.msg_queue
      → deal_msg j l ≡ ends (record l { msg_queue = [] }) (answers j l.msg_queue)
  stop-answers l reg t h = stopped-drain l t ∙ drain-All l l.msg_queue reg h
