-- ===== src/Session/Receive/Bodies.antt =====
-- The bytes of a message, in a round that begins it or that goes on with it.
use async_echo_server.Base.{
  ℕ, ◌+◌, ◌-◌, ◌≤◌, ◌<◌, ◌≡◌, refl, ap, ◌∙◌, true, some, List, ◌++◌, length, take, drop, arith,
  Bool, take-add, drop-add, length-append, sym,
}
use async_echo_server.Platform.{Platform}
use async_echo_server.Memory.{zeros, length-zeros, length-window}
use async_echo_server.MsgNode.{ReciveNode, max_length}
use async_echo_server.Session.{Session}
use async_echo_server.Session.Receive.State.{AtBody, message_of}
use async_echo_server.Session.Receive.Steps.{
  filled, completed, length-filled, filled-kept, text-completed,
}
use async_echo_server.Session.Receive.Rounds.{Roomy, window}
use async_echo_server.Base.{
  Bool-cases, ltb, ltb→lt, ltb→le, inl, inr, Exec, ok, true, [], ◌∷◌, ap, ◌∙◌, sym, refl, some,
}
use async_echo_server.Session.{async_read}
use async_echo_server.Wire.{header, body, absorb, after}
use async_echo_server.Wire.Laws.{absorb-append, absorb-body, absorb-body_full}
use async_echo_server.Session.Receive.{Round, returns, round, read_body, finish_message}
use async_echo_server.Session.Receive.Messages.{body_partial, body_full}
use async_echo_server.Session.Receive.Rounds.{RoundMeets, finish-meets}

pub window-split :
    (s : Session) (c n k : ℕ) → k ≤ n → window s c n ≡ window s c k ++ window s (c + k) (n - k)
window-split s c n k h =
    ap (λ m. take m (drop c s.buffer)) (omega arith)
    ∙ take-add k (n - k) (drop c s.buffer)
    ∙ ap (λ xs. window s c k ++ take (n - k) xs) (sym (drop-add c k s.buffer))

-- A node that has the bytes `bytes` of a message, and room for all of it.
pub record NodeHolds (recv : ReciveNode) (id len : ℕ) (bytes : List ℕ) : Type 0 where
  pub ident : recv.msg_id ≡ id
  pub total : recv.node.total_len ≡ len
  pub bound : len ≤ max_length
  pub node_room : length recv.node.chars ≡ len + 1
  pub cur : recv.node.cur_len ≡ length bytes
  pub kept : take (length bytes) recv.node.chars ≡ bytes

module _ (p : Platform) (s : Session) (recv : ReciveNode) (c n : ℕ) {id len : ℕ} {bytes : List ℕ}
    (w : Roomy s) (h : NodeHolds recv id len bytes) (inside : c + n ≤ max_length) where
  fits : (k : ℕ) → k ≤ n → c + k ≤ length s.buffer
  fits k le = omega (arith, w.room)

  pub completed-message :
      (k : ℕ)
      → k ≤ n
      → length bytes + k ≡ len
      → message_of (record recv { node = completed recv.node s.buffer c k })
        ≡ record { id = id; text = bytes ++ window s c k }
  completed-message k le e = λ i. record {
    id = h.ident i;
    text =
        text-completed recv.node s.buffer c k bytes h.cur h.kept (omega (arith, h.cur, h.total))
          (omega (arith, h.total, h.bound)) (omega (arith, h.node_room, h.total)) (fits k le) i;
  }

  filled-AtBody :
      (b : Bool)
      → b ≡ true
      → length bytes + n < len
      → AtBody
          (record s {
            recv_msg_node = some (record recv { node = filled recv.node s.buffer c n });
            b_head_parse = b;
            buffer = zeros max_length;
          })
          id
          len
          (bytes ++ window s c n)
  filled-AtBody b e short = record {
    parse = e;
    room = length-zeros max_length;
    head_total = w.head_total;
    head_room = w.head_room;
    recv = record recv { node = filled recv.node s.buffer c n };
    held = refl;
    ident = h.ident;
    total = h.total;
    bound = h.bound;
    node_room =
        length-filled recv.node s.buffer c n (omega (arith, h.cur, h.node_room))
          (fits n (omega arith))
        ∙ h.node_room;
    cur = omega (arith, h.cur, size);
    short = omega (arith, size);
    kept =
        filled-kept recv.node s.buffer c n bytes h.cur h.kept (omega (arith, h.cur, h.node_room))
          (fits n (omega arith));
  }
    where
      size : length (bytes ++ window s c n) ≡ length bytes + n
      size = omega (
        arith,
        length-append bytes (window s c n),
        length-window s.buffer c n (fits n (omega arith)),
      )

  -- The completing bytes, and what the receiver makes of the rest of the chunk.
  absorb_complete :
      (k : ℕ)
      → k ≤ n
      → length bytes < len
      → length bytes + k ≡ len
      → absorb p (body id len bytes) (window s c n)
        ≡ after
            (record { id = id; text = bytes ++ window s c k } ∷ [])
            (absorb p (header []) (window s (c + k) (n - k)))
  absorb_complete k le short e =
      ap (absorb p (body id len bytes)) (window-split s c n k le)
      ∙ absorb-append p (body id len bytes) (window s c k) (window s (c + k) (n - k))
      ∙ ap (λ q. after q.1 (absorb p q.0 (window s (c + k) (n - k))))
          (absorb-body_full p id len bytes (window s c k) short
            (omega (arith, e, length-window s.buffer c k (fits k le))))

  -- A round that comes to a message in which these bytes are missing.
  pub message-meets :
      (c₀ n₀ : ℕ) (b : Bool) (r : Exec Round)
      → b ≡ true
      → length bytes < len
      → n ≤ n₀
      → c + n ≡ c₀ + n₀
      → (length bytes + n < len
          → r
            ≡ ok (
                returns
                  (record s {
                    recv_msg_node = some (record recv { node = filled recv.node s.buffer c n });
                    b_head_parse = b;
                    buffer = zeros max_length;
                  })
                  (async_read ∷ [])))
      → ((k : ℕ)
          → length bytes + k ≡ len
          → k ≤ n
          → r
            ≡ finish_message s
                (record recv { node = completed recv.node s.buffer c k })
                (c + k)
                (n - k))
      → RoundMeets p s.buffer c₀ n₀ (absorb p (body id len bytes) (window s c n)) r
  message-meets c₀ n₀ b r e short le same partial full =
      elim (Bool-cases (ltb (length bytes + n) len)) [
        | inl t ↦ partly (ltb→lt (length bytes + n) len t)
        | inr f ↦
            wholly (len - length bytes) (omega arith)
              (omega (arith, ltb→le (length bytes + n) len f))
      ]
    where
      partly :
          length bytes + n < len
          → RoundMeets p s.buffer c₀ n₀ (absorb p (body id len bytes) (window s c n)) r
      partly lt =
          rw
            (
              partial lt,
              absorb-body p id len bytes (window s c n)
                  (omega (arith, length-window s.buffer c n (fits n (omega arith)))),
            )
            (refl, filled-AtBody b e lt)

      wholly :
          (k : ℕ)
          → length bytes + k ≡ len
          → k ≤ n
          → RoundMeets p s.buffer c₀ n₀ (absorb p (body id len bytes) (window s c n)) r
      wholly k done enough = rw (full k done enough) (
          finish-meets p s (record recv { node = completed recv.node s.buffer c k }) (c + k) (n - k)
            c₀ n₀ (record { id = id; text = bytes ++ window s c k }) _ w
            (completed-message k enough done) (omega arith) (omega arith)
            (absorb_complete k enough short done))

-- A round inside a message.
pub body-meets :
    (p : Platform) (s : Session) (c n : ℕ) {id len : ℕ} {bytes : List ℕ}
    → AtBody s id len bytes
    → c + n ≤ max_length
    → RoundMeets p s.buffer c n (absorb p (body id len bytes) (window s c n)) (round p s c n)
unfolding round
body-meets p s c n {id} {len} {bytes} a inside = rw (into_body) (
    message-meets p s a.recv c n
      (record { room = a.room; head_total = a.head_total; head_room = a.head_room }) holds inside c
      n s.b_head_parse (read_body s a.recv c n) a.parse a.short (omega arith) refl
      (λ lt.
        body_partial s c n a.room inside a.recv (omega (arith, a.total, a.bound))
          (omega (arith, a.cur, a.total)) (omega (arith, a.node_room, a.total)))
      (λ k done enough.
        body_full s c n a.room inside a.recv k (omega (arith, a.total, a.bound))
          (omega (arith, a.cur, a.total)) enough (omega (arith, a.node_room, a.total))))
  where
    into_body : round p s c n ≡ read_body s a.recv c n
    into_body = ground (arith, a.parse, a.held)

    holds : NodeHolds a.recv id len bytes
    holds = record {
      ident = a.ident;
      total = a.total;
      bound = a.bound;
      node_room = a.node_room;
      cur = a.cur;
      kept = a.kept;
    }
