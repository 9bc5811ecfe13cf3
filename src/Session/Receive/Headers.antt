-- ===== src/Session/Receive/Headers.antt =====
-- A round that comes to a header: the header stays incomplete, is refused, or opens a message.
use async_echo_server.Base.{
  ℕ, zero, suc, ◌+◌, ◌-◌, ◌≤◌, ◌<◌, ◌≡◌, refl, ap, sym, ◌∙◌, ◌⊎◌, inl, inr, true, List, [], ◌∷◌,
  ◌++◌, Exec, ok, threw, corrupt, length, take, drop, arith, ltb, Bool-cases, ltb→lt, ltb→le,
  length-append, take-zero, if◌then◌else◌, eq_false,
}
use async_echo_server.Platform.{Platform, short_gt, is_negative, short_le}
use async_echo_server.Memory.{length-zeros, length-window}
use async_echo_server.Wire.{header, failed, gather, open_message, begin, absorb, after}
use async_echo_server.Wire.Laws.{
  absorb-append, absorb-header, absorb-header_full, absorb-refused, absorb-failed, begin-take,
}
use async_echo_server.MsgNode.{max_length}
use async_echo_server.MsgNode.Laws.{fresh_node, length-fresh_node}
use async_echo_server.Session.{Session, clear_session}
use async_echo_server.Session.Receive.{Round, returns, round, begin_message}
use async_echo_server.Session.Receive.State.{AtHeader}
use async_echo_server.Session.Receive.Steps.{
  round_header, read_header_partial, read_header_full, header_node, length-filled, filled-kept,
  completed,
}
use async_echo_server.Session.Receive.Messages.{begin_partial, begin_full, begin_negative}
use async_echo_server.Session.Receive.Rounds.{RoundMeets, Roomy, window, finish-meets}
use async_echo_server.Session.Receive.Bodies.{
  NodeHolds, window-split, message-meets, completed-message,
}

fresh-NodeHolds :
    (id len : ℕ)
    → len ≤ max_length
    → NodeHolds (record { node = fresh_node len; msg_id = id }) id len []
fresh-NodeHolds id len h = record {
  ident = refl;
  total = refl;
  bound = h;
  node_room = length-fresh_node len;
  cur = refl;
  kept = take-zero (fresh_node len).chars;
}

module _ (p : Platform) (s : Session) (c n c₀ n₀ : ℕ) (w : Roomy s) (inside : c + n ≤ max_length)
    (fewer : n < n₀) (same : c + n ≡ c₀ + n₀) where
  -- A header with an acceptable length: its message begins.
  begin-meets :
      (id len : ℕ)
      → len ≤ max_length
      → RoundMeets p s.buffer c₀ n₀
          (after (gather id len []).1 (absorb p (gather id len []).0 (window s c n)))
          (begin_message s id len c n)
  unfolding gather
  begin-meets id zero bound = rw (begin_full s c n w.room inside id 0 (omega arith) (omega arith)) (
      finish-meets p s (record { node = completed (fresh_node 0) s.buffer c 0; msg_id = id })
        (c + 0) (n - 0) c₀ n₀ (record { id = id; text = [] }) _ w
        (completed-message p s (record { node = fresh_node 0; msg_id = id }) c n w
            (fresh-NodeHolds id 0 bound) inside 0 (omega arith) refl
          ∙ ap (λ k. record { id = id; text = k }) (take-zero (drop c s.buffer)))
        (omega arith) (omega arith)
        (ap (λ k. after (record { id = id; text = [] } ∷ []) (absorb p (header []) k)) rest))
    where
      rest : window s c n ≡ window s (c + 0) (n - 0)
      rest =
          ap (λ k. take k (drop c s.buffer)) (omega arith)
          ∙ ap (λ k. take (n - 0) (drop k s.buffer)) (omega arith)
  begin-meets id (suc l) bound = rw (eq_false 0 (suc l) (omega arith)) (
      message-meets p s (record { node = fresh_node (suc l); msg_id = id }) c n w
        (fresh-NodeHolds id (suc l) bound) inside c₀ n₀ true (begin_message s id (suc l) c n) refl
        (omega arith) (omega arith) same
        (λ lt. begin_partial s c n w.room inside id (suc l) bound (omega arith))
        (λ k done enough.
          let e : k ≡ suc l = omega arith in
          rw e (begin_full s c n w.room inside id (suc l) bound (omega arith))))

  -- What follows a complete header.
  dispatch-meets :
      (id len : ℕ)
      → RoundMeets p s.buffer c₀ n₀
          (after (open_message id len).1 (absorb p (open_message id len).0 (window s c n)))
          (if short_gt id max_length
            then ok (returns s (clear_session ∷ []))
            else if short_gt len max_length
            then ok (returns s (clear_session ∷ []))
            else begin_message s id len c n)
  unfolding open_message
  dispatch-meets id len = elim (Bool-cases (short_gt id max_length)) [
    | inl e ↦ rw (e, absorb-refused p (window s c n)) (refl, tt)
    | inr e ↦ rw e (elim (Bool-cases (short_gt len max_length)) [
      | inl e' ↦ rw (e', absorb-refused p (window s c n)) (refl, tt)
      | inr e' ↦ rw e' (elim (Bool-cases (is_negative len)) [
        | inl neg ↦
            rw (neg, absorb-failed p (window s c n))
              (fault (begin_negative s c n w.room inside id len neg))
        | inr nat ↦ rw nat (begin-meets id len (short_le len max_length nat e'))
      ])
    ])
  ]
    where
      fault :
          {r : Exec Round}
          → (r ≡ threw) ⊎ (r ≡ corrupt)
          → RoundMeets p s.buffer c₀ n₀ (failed, []) r
      fault (inl e) = rw e refl
      fault (inr e) = rw e refl

-- The header node with its last bytes has the whole header.
header_node-begin :
    (p : Platform) (s : Session) (c n k : ℕ) {h : List ℕ}
    → AtHeader s h
    → length h + k ≡ 4
    → k ≤ n
    → c + n ≤ max_length
    → begin p (header_node s.recv_head_node s.buffer c k).chars ≡ begin p (h ++ window s c k)
header_node-begin p s c n k {h} a e le inside =
    sym (begin-take p (header_node s.recv_head_node s.buffer c k).chars)
    ∙ ap (begin p) (
        ap (λ m. take m (header_node s.recv_head_node s.buffer c k).chars)
          (omega (
            arith,
            length-append h (window s c k),
            length-window s.buffer c k (omega (arith, a.room)),
          ))
        ∙ filled-kept s.recv_head_node s.buffer c k h a.cur a.kept
            (omega (arith, a.cur, a.head_room)) (omega (arith, a.room)))

header-split :
    (p : Platform) (s : Session) (c n k : ℕ) {h : List ℕ}
    → AtHeader s h
    → length h + k ≡ 4
    → k ≤ n
    → c + n ≤ max_length
    → absorb p (header h) (window s c n)
      ≡ after (begin p (header_node s.recv_head_node s.buffer c k).chars).1 (
          absorb p
            (begin p (header_node s.recv_head_node s.buffer c k).chars).0
            (window s (c + k) (n - k)))
header-split p s c n k {h} a e le inside =
    ap (absorb p (header h)) (window-split s c n k le)
    ∙ absorb-append p (header h) (window s c k) (window s (c + k) (n - k))
    ∙ ap (λ q. after q.1 (absorb p q.0 (window s (c + k) (n - k))))
        (absorb-header_full p h (window s c k) a.short
            (omega (arith, e, length-window s.buffer c k (omega (arith, a.room))))
          ∙ sym (header_node-begin p s c n k a e le inside))

header-full :
    (p : Platform) (s : Session) (c n k : ℕ) {h : List ℕ}
    → AtHeader s h
    → length h + k ≡ 4
    → k ≤ n
    → c + n ≤ max_length
    → RoundMeets p s.buffer c n (absorb p (header h) (window s c n)) (round p s c n)
unfolding begin
header-full p s c n k {h} a e le inside =
    rw
      (
        round_header p s c n a.parse,
        read_header_full p s c n k a.room a.head_room (omega (arith, a.cur)) le inside,
        header-split p s c n k a e le inside,
      )
      (dispatch-meets p (record s { recv_head_node = header_node s.recv_head_node s.buffer c k })
        (c + k) (n - k) c n roomy (omega arith) (omega (arith, a.short)) (omega arith) _ _)
  where
    roomy : Roomy (record s { recv_head_node = header_node s.recv_head_node s.buffer c k })
    roomy = record {
      room = a.room;
      head_total = a.head_total;
      head_room =
          length-filled s.recv_head_node s.buffer c k (omega (arith, a.cur, a.head_room))
            (omega (arith, a.room))
          ∙ a.head_room;
    }

header-partial :
    (p : Platform) (s : Session) (c n : ℕ) {h : List ℕ}
    → AtHeader s h
    → length h + n < 4
    → c + n ≤ max_length
    → RoundMeets p s.buffer c n (absorb p (header h) (window s c n)) (round p s c n)
header-partial p s c n {h} a lt inside =
    rw
      (
        round_header p s c n a.parse,
        read_header_partial p s c n a.room a.head_room (omega (arith, a.cur)) inside,
        absorb-header p h (window s c n) (omega (arith, size)),
      )
      (
        refl,
        record {
          parse = a.parse;
          room = length-zeros max_length;
          head_total = a.head_total;
          head_room =
              length-filled s.recv_head_node s.buffer c n (omega (arith, a.cur, a.head_room))
                (omega (arith, a.room))
              ∙ a.head_room;
          cur = omega (arith, a.cur, length-append h (window s c n), size);
          short = omega (arith, length-append h (window s c n), size);
          kept =
              filled-kept s.recv_head_node s.buffer c n h a.cur a.kept
                (omega (arith, a.cur, a.head_room)) (omega (arith, a.room));
        },
      )
  where
    size : length (window s c n) ≡ n
    size = length-window s.buffer c n (omega (arith, a.room))

-- A round between messages.
pub header-meets :
    (p : Platform) (s : Session) (c n : ℕ) {h : List ℕ}
    → AtHeader s h
    → c + n ≤ max_length
    → RoundMeets p s.buffer c n (absorb p (header h) (window s c n)) (round p s c n)
header-meets p s c n {h} a inside = elim (Bool-cases (ltb (length h + n) 4)) [
  | inl t ↦ header-partial p s c n a (ltb→lt (length h + n) 4 t) inside
  | inr f ↦
      header-full p s c n (4 - length h) a (omega (arith, a.short))
        (omega (arith, ltb→le (length h + n) 4 f)) inside
]
