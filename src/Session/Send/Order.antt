-- ===== src/Session/Send/Order.antt =====
-- CSession::Send and HandleWrite: the frames on the line, in their order.
use async_echo_server.Base.{
  ℕ, ◌≤◌, ◌<◌, ◌≡◌, refl, inl, inr, List, [], ◌∷◌, ◌++◌, ok, length, arith, Bool-cases, append-nil,
  append_assoc, map-append, drop_all, drop-append, length-append, map, ap, sym, ◌∙◌, suc,
  false≢true, false, true,
}
use async_echo_server.Platform.{Platform}
use async_echo_server.MsgNode.{SendNode, wire_bytes, max_send_queue}
use async_echo_server.Session.{Session, Action}
use async_echo_server.Session.Send.Line.{
  Line, taken, after_send, after_write, after_failure, Step, sends_string, sends_chars, completes,
  fails, Opened, Reach, here, next, writes,
}
use async_echo_server.Session.Send.{handle_write, send_string, send_chars}
use async_echo_server.Session.Send.Queue.{
  front, Enqueued, full, first, later, enqueue-Enqueued, handle_write-ok, handle_write-failed,
}

-- Between two steps. On a sound line exactly the head of the queue is being written; on a broken
-- one nothing is, and the queue is not empty.
pub record Inv (l : Line) : Type 0 where
  pub flow : l.broken ≡ false → l.writing ≡ front l.session.send_que
  pub stuck : l.broken ≡ true → (l.writing ≡ []) × (0 < length l.session.send_que)
  pub order : l.written ++ map wire_bytes l.session.send_que ≡ l.accepted
  pub bound : length l.session.send_que ≤ suc max_send_queue

Opened-Inv : (l : Line) → Opened l → Inv l
unfolding front
Opened-Inv l o = record {
  flow = λ e. rw (o.empty) (o.idle);
  stuck = λ e. absurd (false≢true (sym o.sound ∙ e));
  order = rw (o.empty, o.nothing_written, o.nothing_accepted);
  bound = rw o.empty (omega arith);
}

-- A frame that goes behind the queue is what `taken` shows.
taken-later :
    (s : Session) (node : SendNode)
    → taken s (record s { send_que = s.send_que ++ node ∷ [] }) ≡ wire_bytes node ∷ []
taken-later s node =
    ap (map wire_bytes) (drop-append (length s.send_que) s.send_que (node ∷ []) refl)

taken-same : (s : Session) → taken s s ≡ []
taken-same s = ap (map wire_bytes) (drop_all (length s.send_que) s.send_que (omega arith))

-- A frame behind a queue that has a head leaves the head.
front-append :
    (que : List SendNode) (node : SendNode) → 0 < length que → front (que ++ node ∷ []) ≡ front que
unfolding front
front-append [] node h = absurd (omega arith)
front-append (x ∷ xs) node h = refl

order-append :
    (written : List (List ℕ)) (que : List SendNode) (node : SendNode) {accepted : List (List ℕ)}
    → written ++ map wire_bytes que ≡ accepted
    → written ++ map wire_bytes (que ++ node ∷ []) ≡ accepted ++ wire_bytes node ∷ []
order-append written que node e =
    ap (◌++◌ written) (map-append wire_bytes que (node ∷ []))
    ∙ sym (append_assoc written (map wire_bytes que) (wire_bytes node ∷ []))
    ∙ ap (λ k. k ++ wire_bytes node ∷ []) e

after_send-Inv :
    (l : Line) (s' : Session) (acts : List Action)
    → Inv l
    → Enqueued l.session s' acts
    → Inv (after_send l s' acts)
unfolding front
after_send-Inv l s' acts v (full over same none_written) =
    rw (same, none_written, taken-same l.session, append-nil l.writing, append-nil l.accepted) v
after_send-Inv l s' acts v (first node empty same written) = record {
  flow = λ e.
      rw (same, written)
        (ap (λ k. k ++ wire_bytes node ∷ []) (v.flow e ∙ ap front empty)
          ∙ ap (λ k. front (k ++ node ∷ [])) (sym empty));
  stuck = λ e. absurd (omega (arith, (v.stuck e).1, ap length empty));
  order =
      rw (same, taken-later l.session node)
        (order-append l.written l.session.send_que node v.order);
  bound = rw same (omega (arith, length-append l.session.send_que (node ∷ []), ap length empty));
}
after_send-Inv l s' acts v (later node some_before le same none_written) = record {
  flow = λ e.
      rw (same, none_written, append-nil l.writing)
        (v.flow e ∙ sym (front-append l.session.send_que node some_before));
  stuck = λ e.
      rw (same, none_written, append-nil l.writing)
        ((v.stuck e).0, omega (arith, length-append l.session.send_que (node ∷ [])));
  order =
      rw (same, taken-later l.session node)
        (order-append l.written l.session.send_que node v.order);
  bound = rw same (omega (arith, length-append l.session.send_que (node ∷ [])));
}

-- What is being written, if anything is, is the head of the queue, and the line is sound.
pub record Writing (l : Line) (bytes : List ℕ) (rest : List (List ℕ)) : Type 0 where
  pub sound : l.broken ≡ false
  pub node : SendNode
  pub tail : List SendNode
  pub queue : l.session.send_que ≡ node ∷ tail
  pub head : bytes ≡ wire_bytes node
  pub alone : rest ≡ []

head_of :
    (l : Line) (que : List SendNode) (bytes : List ℕ) (rest : List (List ℕ))
    → l.broken ≡ false
    → l.session.send_que ≡ que
    → bytes ∷ rest ≡ front que
    → Writing l bytes rest
unfolding front
head_of l [] bytes rest sound q w = cc
head_of l (node ∷ tail) bytes rest sound q w = record {
  sound = sound;
  node = node;
  tail = tail;
  queue = q;
  head = cc;
  alone = cc;
}

pub Inv-Writing :
    (l : Line) (bytes : List ℕ) (rest : List (List ℕ))
    → Inv l
    → l.writing ≡ bytes ∷ rest
    → Writing l bytes rest
Inv-Writing l bytes rest v w = elim (Bool-cases l.broken) [
  | inl t ↦ absurd (omega (arith, ap length (sym w ∙ (v.stuck t).0)))
  | inr f ↦ head_of l l.session.send_que bytes rest f refl (sym w ∙ v.flow f)
]

after_write-Inv :
    (l : Line) (bytes : List ℕ) (rest : List (List ℕ)) (s' : Session) (acts : List Action)
    → Inv l
    → l.writing ≡ bytes ∷ rest
    → handle_write l.session false ≡ ok (s', acts)
    → Inv (after_write l s' acts bytes rest)
after_write-Inv l bytes rest s' acts v w e = record {
  flow = λ _. rw (at.alone, done.1, done.0);
  stuck = λ t. absurd (false≢true (sym at.sound ∙ t));
  order =
      rw (done.0, at.head)
        (append_assoc l.written (wire_bytes at.node ∷ []) (map wire_bytes at.tail)
          ∙ ap (λ k. l.written ++ map wire_bytes k) (sym at.queue)
          ∙ v.order);
  bound = rw done.0 (omega (arith, v.bound, ap length at.queue));
}
  where
    at : Writing l bytes rest
    at = Inv-Writing l bytes rest v w

    done : (s' ≡ record l.session { send_que = at.tail }) × (writes acts ≡ front at.tail)
    done = handle_write-ok l.session at.node at.tail s' acts at.queue e

after_failure-Inv :
    (l : Line) (bytes : List ℕ) (rest : List (List ℕ)) (s' : Session) (acts : List Action)
    → Inv l
    → l.writing ≡ bytes ∷ rest
    → handle_write l.session true ≡ ok (s', acts)
    → Inv (after_failure l s' acts rest)
after_failure-Inv l bytes rest s' acts v w e = record {
  flow = λ f. absurd (false≢true (sym f));
  stuck = λ _. (rw (at.alone, done.1), rw done.0 (omega (arith, ap length at.queue)));
  order = rw done.0 v.order;
  bound = rw done.0 v.bound;
}
  where
    at : Writing l bytes rest
    at = Inv-Writing l bytes rest v w

    done : (s' ≡ record l.session { b_close = true }) × (writes acts ≡ [])
    done = handle_write-failed l.session s' acts e

-- Every step keeps the invariant.
pub Step-Inv : (p : Platform) {l u : Line} → Step p l u → Inv l → Inv u
unfolding send_string send_chars
Step-Inv p {l} (sends_string msg id s' acts e same) v =
    rw same (after_send-Inv l s' acts v (enqueue-Enqueued p l.session _ _ id s' acts e))
Step-Inv p {l} (sends_chars buffer len id s' acts e same) v =
    rw same (after_send-Inv l s' acts v (enqueue-Enqueued p l.session _ _ id s' acts e))
Step-Inv p {l} (completes bytes rest s' acts w e same) v =
    rw same (after_write-Inv l bytes rest s' acts v w e)
Step-Inv p {l} (fails bytes rest s' acts w e same) v =
    rw same (after_failure-Inv l bytes rest s' acts v w e)

pub Reach-Inv : (p : Platform) {l u : Line} → Opened l → Reach p l u → Inv u
Reach-Inv p {l} o here = Opened-Inv l o
Reach-Inv p o (next r st) = Step-Inv p st (Reach-Inv p o r)
