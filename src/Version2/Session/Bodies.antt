-- ===== src/Version2/Session/Bodies.antt =====
-- The bytes of a message, in a round of `HandleRead` that begins it or that goes on with it.
use async_echo_server.Base.{
  ℕ, ◌+◌, ◌-◌, ◌≤◌, ◌<◌, ◌≡◌, refl, ap, sym, subst, eq_false, ◌∙◌, inl, inr, Bool, true, some, List,
  [], ◌∷◌, ◌++◌, map, Exec, ok, arith, length, take, length-append, ltb, Bool-cases, ltb→lt, ltb→le,
}
use async_echo_server.Base.Runs.{ahead, run-nil}
use async_echo_server.Platform.{Platform}
use async_echo_server.Memory.{zeros, length-zeros, length-window, take-splice_before, length-splice}
use async_echo_server.MsgNode.{MsgNode, max_length}
use async_echo_server.Session.Receive.Steps.{filled, completed, length-filled, filled-kept}
use async_echo_server.Version2.{LongWire}
use async_echo_server.Version2.Wire.{
  body, broken, gather, feed, absorb, gather_partial, gather_full, absorb-broken,
}
use async_echo_server.Version2.Replies.{reply}
use async_echo_server.Version2.Session.{CSession, async_read_some, async_write}
use async_echo_server.Version2.Session.Read.{Round, returns, finish_message, read_body, round}
use async_echo_server.Version2.Session.State.{
  Roomy, empty_node, NodeHolds, AtBody, AtBroken, window, RoundMeets,
}
use async_echo_server.Version2.Session.Finish.{window-split, finish-meets}
use async_echo_server.Version2.Session.Steps.{body_partial, body_full}
use async_echo_server.Version2.Session.Openings.{body_overflow}

module _ (p : Platform) (l : LongWire) (s : CSession) (w : Roomy s) (c₀ n₀ : ℕ) where
  module _ (recv : MsgNode) (c n : ℕ) {len : ℕ} {text : List ℕ} (h : NodeHolds recv len text)
      (inside : c + n ≤ max_length) where
    size : (k : ℕ) → k ≤ n → length (text ++ window s c k) ≡ length text + k
    size k le = omega (
      arith,
      length-append text (window s c k),
      length-window s.buffer c k (omega (arith, w.room)),
    )

    room-filled :
        (k : ℕ) → k ≤ n → length text + k ≤ len → length (filled recv s.buffer c k).chars ≡ len + 1
    room-filled k le fits =
        length-filled recv s.buffer c k (omega (arith, h.cur, h.node_room)) (omega (arith, w.room))
        ∙ h.node_room

    kept-filled :
        (k : ℕ)
        → k ≤ n
        → length text + k ≤ len
        → take (length (text ++ window s c k)) (filled recv s.buffer c k).chars
          ≡ text ++ window s c k
    kept-filled k le fits =
        filled-kept recv s.buffer c k text h.cur h.kept (omega (arith, h.cur, h.node_room))
          (omega (arith, w.room))

    -- A node that is full has the text, without the zero behind it.
    kept-completed :
        (k : ℕ)
        → k ≤ n
        → length text + k ≡ len
        → take (length (text ++ window s c k)) (completed recv s.buffer c k).chars
          ≡ text ++ window s c k
    kept-completed k le e =
        ap (λ m. take m (completed recv s.buffer c k).chars) whole
        ∙ take-splice_before (filled recv s.buffer c k).chars recv.total_len (0 ∷ [])
            (omega (arith, room-filled k le (omega arith), h.total))
        ∙ ap (λ m. take m (filled recv s.buffer c k).chars) (sym whole)
        ∙ kept-filled k le (omega arith)
      where
        whole : length (text ++ window s c k) ≡ recv.total_len
        whole = omega (arith, size k le, h.total)

    room-completed :
        (k : ℕ)
        → k ≤ n
        → length text + k ≡ len
        → length (completed recv s.buffer c k).chars ≡ len + 1
    room-completed k le e =
        length-splice (filled recv s.buffer c k).chars recv.total_len (0 ∷ [])
          (omega (arith, room-filled k le (omega arith), h.total))
        ∙ room-filled k le (omega arith)

    partly :
        (b : Bool)
        → b ≡ true
        → length text + n < len
        → AtBody
            (record s {
              recv_msg_node = some (filled recv s.buffer c n);
              b_head_parse = b;
              buffer = zeros max_length;
            })
            len
            (text ++ window s c n)
    partly b e short = record {
      parse = e;
      roomy = record {
        room = length-zeros max_length;
        head_total = w.head_total;
        head_room = w.head_room;
      };
      recv = filled recv s.buffer c n;
      held = refl;
      holds = record {
        total = h.total;
        bound = h.bound;
        node_room = room-filled n (omega arith) (omega arith);
        cur = omega (arith, h.cur, size n (omega arith));
        kept = kept-filled n (omega arith) (omega arith);
      };
      short = omega (arith, size n (omega arith));
    }

    -- The two ways in which a message takes the bytes at hand.
    pub message-meets :
        (b : Bool) (r : Exec Round)
        → b ≡ true
        → c + n ≡ c₀ + n₀
        → ((k : ℕ) → length text + k ≡ len → k ≤ n → n - k < n₀)
        → length text ≤ len
        → (length text + n < len
            → r
              ≡ ok (
                  returns
                    (record s {
                      recv_msg_node = some (filled recv s.buffer c n);
                      b_head_parse = b;
                      buffer = zeros max_length;
                    })
                    (async_read_some ∷ [])))
        → ((k : ℕ)
            → length text + k ≡ len
            → k ≤ n
            → r ≡ finish_message p l s (completed recv s.buffer c k) (c + k) (n - k))
        → RoundMeets p s.send_que s.buffer c₀ n₀
            (ahead (feed p) (gather len text).1 (absorb p (gather len text).0 (window s c n)))
            r
    message-meets b r e sum fewer within partial full =
        elim (Bool-cases (ltb (length text + n) len)) [
          | inl t ↦
              let lt = ltb→lt (length text + n) len t in
              rw
                (
                  gather_partial p len text (window s c n)
                      (omega (arith, size n (omega arith), length-append text (window s c n))),
                  partial lt,
                )
                (
                  sym (ap (λ q. q.0) (run-nil reply s.send_que)),
                  sym (
                      ap (λ q. map async_write q.1 ++ async_read_some ∷ [])
                        (run-nil reply s.send_que)),
                  partly b e lt,
                )
          | inr f ↦
              wholly (len - length text) (omega arith)
                (omega (arith, ltb→le (length text + n) len f))
        ]
      where
        wholly :
            (k : ℕ)
            → length text + k ≡ len
            → k ≤ n
            → RoundMeets p s.send_que s.buffer c₀ n₀
                (ahead (feed p) (gather len text).1 (absorb p (gather len text).0 (window s c n)))
                r
        wholly k done enough =
            rw
              (
                window-split s c n k enough,
                gather_full p len text (window s c k) (window s (c + k) (n - k))
                    (omega (arith, size k enough, length-append text (window s c k))),
                full k done enough,
              )
              (finish-meets p l s w c₀ n₀ (completed recv s.buffer c k) (text ++ window s c k)
                (c + k) (n - k) _ (omega (arith, h.total, size k enough))
                (omega (arith, size k enough, h.bound))
                (omega (arith, size k enough, room-completed k enough done))
                (kept-completed k enough done) (fewer k done enough) (omega arith) refl)

-- A round inside a message.
pub body-meets :
    (p : Platform) (l : LongWire) (s : CSession) (c n : ℕ) {len : ℕ} {text : List ℕ}
    → AtBody s len text
    → c + n ≤ max_length
    → RoundMeets p s.send_que s.buffer c n
        (absorb p (body len text) (window s c n))
        (round p l s c n)
unfolding round
body-meets p l s c n {len} {text} a inside =
    subst (λ r. RoundMeets p s.send_que s.buffer c n r (round p l s c n)) begun
      (rw (into_body) (
        message-meets p l s a.roomy c n a.recv c n a.holds inside s.b_head_parse
          (read_body p l s a.recv c n) a.parse refl (λ k done enough. omega (arith, a.short))
          (omega (arith, a.short))
          (λ lt.
            body_partial p l s a.roomy c n inside a.recv
              (omega (arith, a.holds.total, a.holds.bound))
              (omega (arith, a.holds.cur, a.holds.total))
              (omega (arith, a.holds.node_room, a.holds.total)))
          (λ k done enough.
            body_full p l s a.roomy c n inside a.recv k
              (omega (arith, a.holds.total, a.holds.bound))
              (omega (arith, a.holds.cur, a.holds.total)) enough
              (omega (arith, a.holds.node_room, a.holds.total)))))
  where
    into_body : round p l s c n ≡ read_body p l s a.recv c n
    into_body = ground (arith, a.parse, a.held)

    begun :
        ahead (feed p) (gather len text).1 (absorb p (gather len text).0 (window s c n))
        ≡ absorb p (body len text) (window s c n)
    begun = unfold gather in rw (eq_false (length text) len (omega (arith, a.short)))

-- A round inside a message of the length -1: its first byte has no place.
pub broken-meets :
    (p : Platform) (l : LongWire) (s : CSession) (c n : ℕ)
    → AtBroken s
    → 0 < n
    → c + n ≤ max_length
    → RoundMeets p s.send_que s.buffer c n (absorb p broken (window s c n)) (round p l s c n)
unfolding round
broken-meets p l s c n a pos inside =
    rw
      (
        into_body,
        body_overflow p l s a.roomy c n inside pos,
        absorb-broken p (window s c n)
            (omega (arith, length-window s.buffer c n (omega (arith, a.roomy.room)))),
      )
      refl
  where
    into_body : round p l s c n ≡ read_body p l s empty_node c n
    into_body = ground (arith, a.parse, a.held)
