-- ===== src/Version2/Session/Order.antt =====
-- The order in which a session of version 2 sends texts back.
use async_echo_server.Base.{
  ℕ, suc, ◌+◌, ◌≤◌, ◌≡◌, refl, ap, sym, ◌∙◌, List, [], ◌∷◌, ◌++◌, map, arith, length, drop,
  length-append, append-nil, append_assoc, map-append, All, le→ltb, lt→ltb, All-append, take, Exec,
  ok, false, subst,
}
use async_echo_server.Base.Runs.{run}
use async_echo_server.MsgNode.{MsgNode}
use async_echo_server.Version2.{max_send_queue, size_of_short}
use async_echo_server.Base.{threw, corrupt, ok, Exec}
use async_echo_server.Platform.{size_of_short_lem, size_of_short}
use async_echo_server.Version2.Replies.{take-echo, reply, replies, echo_node, echo_bytes}
use async_echo_server.Version2.Texts.{IsShort}
use async_echo_server.Version2.Session.{CSession, Request, handle_write, async_write}
use async_echo_server.Version2.Session.History.{writes, writes-append}

-- The session's queue holds the frames of these texts; all but the first are still to be written, and
-- with them the texts `ms` have gone out in order.
pub record Ordered (s : CSession) (asked : List Request) (ms : List (List ℕ)) : Type 0 where
  pub queued : List (List ℕ)
  pub queue : s.send_que ≡ map echo_node queued
  pub short : All IsShort queued
  pub in_order : writes asked ++ map echo_bytes (drop 1 queued) ≡ map echo_bytes ms
  pub fewer : length queued ≤ length ms

-- What is still to be written when the first text is being written.
abbrev rest : List (List ℕ) → List (List ℕ)
rest queued = map echo_bytes (drop 1 queued)

-- What is written at once for a new text.
abbrev first : List (List ℕ) → List ℕ → List (List ℕ)
first [] text = echo_bytes text ∷ []
first (q ∷ queued) text = []

length-nodes : (queued : List (List ℕ)) → length (map echo_node queued) ≡ length queued
length-nodes [] = refl
length-nodes (q ∷ queued) = ap suc (length-nodes queued)

reply_one :
    (queued : List (List ℕ)) (text : List ℕ)
    → length queued ≤ max_send_queue
    → reply (map echo_node queued) text ≡ (map echo_node (queued ++ text ∷ []), first queued text)
unfolding reply
reply_one [] text h = refl
reply_one (q ∷ queued) text h = rw (
  le→ltb max_send_queue (suc (length (map echo_node queued))) (omega (arith, length-nodes queued)),
  lt→ltb 0 (suc (length (map echo_node queued))) (omega arith),
  map-append echo_node queued (text ∷ []),
)

first-rest :
    (queued : List (List ℕ)) (text : List ℕ)
    → first queued text ++ rest (queued ++ text ∷ []) ≡ rest queued ++ echo_bytes text ∷ []
unfolding drop
first-rest [] text = refl
first-rest (q ∷ queued) text = map-append echo_bytes queued (text ∷ [])

-- A queue that stays within its bound takes every text, and only the first text of an empty one is
-- written at once.
abbrev TakesAll : List (List ℕ) → List (List ℕ) → List MsgNode × List (List ℕ) → Type 0
TakesAll queued texts q =
    (q.0 ≡ map echo_node (queued ++ texts))
    × (q.1 ++ rest (queued ++ texts) ≡ rest queued ++ map echo_bytes texts)

takes_next :
    (queued : List (List ℕ)) (text : List ℕ) (texts : List (List ℕ))
    (q : List MsgNode × List (List ℕ))
    → TakesAll (queued ++ text ∷ []) texts q
    → TakesAll queued (text ∷ texts) (q.0, first queued text ++ q.1)
takes_next queued text texts q (e, f) = (
  e ∙ ap (map echo_node) (append_assoc queued (text ∷ []) texts),
  append_assoc (first queued text) q.1 _
      ∙ ap (◌++◌ (first queued text))
          (ap (λ k. q.1 ++ rest k) (sym (append_assoc queued (text ∷ []) texts)) ∙ f)
      ∙ sym (append_assoc (first queued text) (rest (queued ++ text ∷ [])) (map echo_bytes texts))
      ∙ ap (λ k. k ++ map echo_bytes texts) (first-rest queued text)
      ∙ append_assoc (rest queued) (echo_bytes text ∷ []) (map echo_bytes texts),
)

replies_all :
    (queued texts : List (List ℕ))
    → length queued + length texts ≤ max_send_queue + 1
    → TakesAll queued texts (replies (map echo_node queued) texts)
unfolding run
replies_all queued [] h = (
  ap (map echo_node) (sym (append-nil queued)),
  ap rest (append-nil queued) ∙ sym (append-nil (rest queued)),
)
replies_all queued (text ∷ texts) h = rw (reply_one queued text (omega arith)) (
    takes_next queued text texts (replies (map echo_node (queued ++ text ∷ [])) texts)
      (replies_all (queued ++ text ∷ []) texts (omega (arith, length-append queued (text ∷ [])))))

-- Texts that come in.
pub Ordered-replies :
    (s s' : CSession) (asked acts : List Request) (ms texts : List (List ℕ))
    → Ordered s asked ms
    → All IsShort texts
    → length ms + length texts ≤ max_send_queue + 1
    → s'.send_que ≡ (replies s.send_que texts).0
    → writes acts ≡ (replies s.send_que texts).1
    → Ordered s' (asked ++ acts) (ms ++ texts)
Ordered-replies s s' asked acts ms texts o short few q w =
    let (same, order) = replies_all o.queued texts (omega (arith, o.fewer)) in
    record {
      queued = o.queued ++ texts;
      queue = q ∙ ap (λ k. (replies k texts).0) o.queue ∙ same;
      short = All-append IsShort o.queued texts o.short short;
      in_order =
          ap (λ k. k ++ rest (o.queued ++ texts)) (writes-append asked acts)
          ∙ append_assoc (writes asked) (writes acts) _
          ∙ ap (◌++◌ (writes asked)) (
              ap (λ k. k ++ rest (o.queued ++ texts)) (w ∙ ap (λ k. (replies k texts).1) o.queue)
              ∙ order)
          ∙ sym (append_assoc (writes asked) (rest o.queued) (map echo_bytes texts))
          ∙ ap (λ k. k ++ map echo_bytes texts) o.in_order
          ∙ sym (map-append echo_bytes ms texts);
      fewer = omega (arith, o.fewer, length-append o.queued texts, length-append ms texts);
    }

node_bytes :
    (text : List ℕ)
    → IsShort text
    → take (size_of_short (length text + 2)) (echo_node text).chars ≡ echo_bytes text
node_bytes text h =
    ap (λ k. take k (echo_node text).chars) (size_of_short_lem (length text + 2) (omega arith))
    ∙ take-echo text

-- What a completed write leaves.
abbrev OrderedAfter : List Request → List (List ℕ) → Exec (CSession × List Request) → Type 0
OrderedAfter asked ms (ok (s', acts)) = Ordered s' (asked ++ acts) ms
OrderedAfter asked ms threw = Unit
OrderedAfter asked ms corrupt = Unit

by_queue :
    (s : CSession) (queued : List (List ℕ)) (asked : List Request) (ms : List (List ℕ))
    → All IsShort queued
    → writes asked ++ rest queued ≡ map echo_bytes ms
    → length queued ≤ length ms
    → OrderedAfter asked ms (handle_write (record s { send_que = map echo_node queued }) false)
unfolding handle_write drop writes
by_queue s [] asked ms short e fewer = tt
by_queue s (q ∷ []) asked ms short e fewer = record {
  queued = [];
  queue = refl;
  short = tt;
  in_order = ap (λ k. writes k ++ []) (append-nil asked) ∙ e;
  fewer = omega arith;
}
by_queue s (q ∷ next ∷ queued) asked ms short e fewer = record {
  queued = next ∷ queued;
  queue = refl;
  short = short.1;
  in_order =
      ap (λ k. writes (asked ++ async_write k ∷ []) ++ map echo_bytes queued)
        (node_bytes next short.1.0)
      ∙ ap (λ k. k ++ map echo_bytes queued)
          (writes-append asked (async_write (echo_bytes next) ∷ []))
      ∙ append_assoc (writes asked) (writes (async_write (echo_bytes next) ∷ []))
          (map echo_bytes queued)
      ∙ e;
  fewer = omega arith;
}

pub Ordered-written :
    (s s' : CSession) (asked acts : List Request) (ms : List (List ℕ))
    → Ordered s asked ms
    → handle_write s false ≡ ok (s', acts)
    → Ordered s' (asked ++ acts) ms
Ordered-written s s' asked acts ms o e =
    subst (OrderedAfter asked ms)
      (ap (λ k. handle_write (record s { send_que = k }) false) (sym o.queue) ∙ e)
      (by_queue s o.queued asked ms o.short o.in_order o.fewer)
